-- ===== src/Storage/Prefix.antt =====
-- redis/storage.go: `Reset` and the keys of the prefix.
use fibr.Prelude.{
  append_nil, ℕ, ◌≡◌, refl, sym, ap, ◌∙◌, Bool, false, ◌||◌, Option, none, some, List, [], ◌∷◌,
  ◌++◌, contains, length, leb, if◌then◌else◌, Bool-cases, Option-cases, inl, inr, append_assoc,
  arith,
}
use fibr.Prelude.Bytes.{Bytes, bytes_cmp}
use fibr.Storage.{Client, Storage, last_batch, reset_from, reset}

-- What the server says of its keys after a deletion that gives no error.
pub record Lawful {S : Type 0} (client : Client S) : Type 0 where
  pub has : S → Bytes → Bool
  pub del-has :
      (ks : List Bytes) (s : S) (k : Bytes)
      → (client.del ks s).1 ≡ none
      → has (client.del ks s).0 k ≡ (if contains ks k then false else has s k)

contains-append :
    (xs ys : List Bytes) (k : Bytes) → contains (xs ++ ys) k ≡ (contains xs k || contains ys k)
contains-append [] ys k = refl
contains-append (x ∷ xs) ys k = ground (arith, contains-append xs ys k)

either_deleted :
    (late early both now before : Bool)
    → now ≡ (if early then false else before)
    → both ≡ (early || late)
    → (if late then false else now) ≡ (if both then false else before)
either_deleted late early both now before h g = ground arith

module _ {S : Type 0} (client : Client S) (law : Lawful client) (st : Storage) where
  last_batch-has :
      (batch : List Bytes) (iter_err : Option ℕ) (s : S) (k : Bytes)
      → (last_batch client st batch iter_err s).1 ≡ none
      → law.has (last_batch client st batch iter_err s).0 k
        ≡ (if contains batch k then false else law.has s k)
  last_batch-has batch (some e) s k h = absurd (ground arith)
  last_batch-has [] none s k h = refl
  last_batch-has (x ∷ xs) none s k h = law.del-has (x ∷ xs) s k h

  reset_from-has :
      (ks batch : List Bytes) (iter_err : Option ℕ) (s : S) (k : Bytes)
      → (reset_from client st ks batch iter_err s).1 ≡ none
      → law.has (reset_from client st ks batch iter_err s).0 k
        ≡ (if contains (batch ++ ks) k then false else law.has s k)
  unfolding reset_from
  reset_from-has [] batch iter_err s k h =
      rw (append_nil batch) (last_batch-has batch iter_err s k h)
  reset_from-has (x ∷ ks) batch iter_err s k h =
      let full = batch ++ x ∷ [] in
      let deleted = client.del full s in
      let whole = append_assoc batch (x ∷ []) ks in
      elim (Bool-cases (leb 500 (length full))) [
        | inr below ↦
            let r : reset_from client st (x ∷ ks) batch iter_err s
                ≡ reset_from client st ks full iter_err s =
              ground (arith, below) in
            ap (λ t. law.has t.0 k) r
            ∙ reset_from-has ks full iter_err s k (sym (ap (λ t. t.1) r) ∙ h)
            ∙ ap (λ l. if contains l k then false else law.has s k) whole
        | inl above ↦ elim (Option-cases deleted.1) [
          | inr (e, failed) ↦
              let r : reset_from client st (x ∷ ks) batch iter_err s ≡ (deleted.0, some e) =
                ground (arith, above, failed) in
              absurd (ground (arith, sym (ap (λ t. t.1) r) ∙ h))
          | inl gone ↦
              let r : reset_from client st (x ∷ ks) batch iter_err s
                  ≡ reset_from client st ks [] iter_err deleted.0 =
                ground (arith, above, gone) in
              ap (λ t. law.has t.0 k) r
              ∙ reset_from-has ks [] iter_err deleted.0 k (sym (ap (λ t. t.1) r) ∙ h)
              ∙ either_deleted (contains ks k) (contains full k) (contains (full ++ ks) k)
                  (law.has deleted.0 k) (law.has s k) (law.del-has full s k gone)
                  (contains-append full ks k)
              ∙ ap (λ l. if contains l k then false else law.has s k) whole
        ]
      ]

  -- A `Reset` without an error deletes exactly the keys that the iterator gave for the pattern of the
  -- prefix, in batches; every other key is there as before.
  reset-has :
      (s : S) (k : Bytes)
      → (reset client st s).1 ≡ none
      → law.has (reset client st s).0 k
        ≡ (if contains (client.scan (st.prefix ++ 42 ∷ []) s).0 k then false else law.has s k)
  unfolding reset
  reset-has s k h =
      reset_from-has (client.scan (st.prefix ++ 42 ∷ []) s).0 []
        (client.scan (st.prefix ++ 42 ∷ []) s).1 s k h
