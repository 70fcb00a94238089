-- ===== src/I18n/Load.antt =====
-- i18n/bundle.go: a nested map, loaded and read back by dotted keys.
use fibr.Prelude.{
  ℕ, append_nil, append_assoc, ◌≡◌, refl, sym, ap, subst, ◌∙◌, false, some, List, [], ◌∷◌, ◌++◌,
  All, In, inl, inr, ◌⊎◌, Bool-cases, ◌==◌, eqb_refl, arith,
}
use fibr.Prelude.Assoc.{lookup, insert, lookup-insert}
use fibr.Prelude.Bytes.{Bytes, bytes_cmp}
use fibr.I18n.{
  Bundle, Messages, Value, Nested, text, table, empty, entry, flatten, flatten_value, key_in,
  load_map, find, or_empty,
}

-- A message with the keys that lead to it.
abbrev pub KeyPath : Type 0
KeyPath = List Bytes × Bytes

abbrev under : Bytes → List KeyPath → List KeyPath
under k [] = []
under k ((ks, s) ∷ ps) = (k ∷ ks, s) ∷ under k ps

unfoldable mutual
  pub paths : Nested → List KeyPath
  paths empty = []
  paths (entry k v rest) = under k (paths_of v) ++ paths rest

  pub paths_of : Value → List KeyPath
  paths_of (text s) = ([], s) ∷ []
  paths_of (table child) = paths child

abbrev behind : List Bytes → Bytes
behind [] = []
behind (k ∷ ks) = 46 ∷ (k ++ behind ks)

-- The keys with a dot between each two, less the empty keys at the front.
abbrev pub dotted : List Bytes → Bytes
dotted [] = []
dotted ([] ∷ ks) = dotted ks
dotted ((c ∷ k) ∷ ks) = (c ∷ k) ++ behind ks

-- The key that `flatten` makes on its way down.
abbrev chain : Bytes → List Bytes → Bytes
chain prefix [] = prefix
chain prefix (k ∷ ks) = chain (key_in prefix k) ks

chain-behind : (c : ℕ) (p : Bytes) (ks : List Bytes) → chain (c ∷ p) ks ≡ (c ∷ p) ++ behind ks
chain-behind c p [] = sym (append_nil (c ∷ p))
chain-behind c p (k ∷ ks) =
    chain-behind c (p ++ 46 ∷ k) ks ∙ append_assoc (c ∷ p) (46 ∷ k) (behind ks)

chain-dotted : (ks : List Bytes) → chain [] ks ≡ dotted ks
chain-dotted [] = refl
chain-dotted ([] ∷ ks) = chain-dotted ks
chain-dotted ((c ∷ k) ∷ ks) = chain-behind c k ks

abbrev insert_all : Bytes → List KeyPath → Messages → Messages
insert_all prefix [] out = out
insert_all prefix ((ks, s) ∷ ps) out = insert_all prefix ps (insert (chain prefix ks) s out)

abbrev insert_dotted : List KeyPath → Messages → Messages
insert_dotted [] out = out
insert_dotted ((ks, s) ∷ ps) out = insert_dotted ps (insert (dotted ks) s out)

insert_all-insert_dotted :
    (ps : List KeyPath) (out : Messages) → insert_all [] ps out ≡ insert_dotted ps out
insert_all-insert_dotted [] out = refl
insert_all-insert_dotted ((ks, s) ∷ ps) out =
    insert_all-insert_dotted ps (insert (chain [] ks) s out)
    ∙ ap (λ k. insert_dotted ps (insert k s out)) (chain-dotted ks)

insert_all-append :
    (prefix : Bytes) (ps qs : List KeyPath) (out : Messages)
    → insert_all prefix (ps ++ qs) out ≡ insert_all prefix qs (insert_all prefix ps out)
insert_all-append prefix [] qs out = refl
insert_all-append prefix ((ks, s) ∷ ps) qs out =
    insert_all-append prefix ps qs (insert (chain prefix ks) s out)

insert_all-under :
    (prefix k : Bytes) (ps : List KeyPath) (out : Messages)
    → insert_all prefix (under k ps) out ≡ insert_all (key_in prefix k) ps out
insert_all-under prefix k [] out = refl
insert_all-under prefix k ((ks, s) ∷ ps) out =
    insert_all-under prefix k ps (insert (chain (key_in prefix k) ks) s out)

mutual
  unfolding flatten paths

  flatten-insert_all :
      (prefix : Bytes) (t : Nested) (out : Messages)
      → flatten prefix t out ≡ insert_all prefix (paths t) out
  flatten-insert_all prefix empty out = refl
  flatten-insert_all prefix (entry k v rest) out =
      ap (λ o. flatten prefix rest o) (flatten_value-insert_all (key_in prefix k) v out)
      ∙ flatten-insert_all prefix rest (insert_all (key_in prefix k) (paths_of v) out)
      ∙ sym (
          insert_all-append prefix (under k (paths_of v)) (paths rest) out
          ∙ ap (λ o. insert_all prefix (paths rest) o) (insert_all-under prefix k (paths_of v) out))

  flatten_value-insert_all :
      (key : Bytes) (v : Value) (out : Messages)
      → flatten_value key v out ≡ insert_all key (paths_of v) out
  flatten_value-insert_all key (text s) out = refl
  flatten_value-insert_all key (table child) out = flatten-insert_all key child out

lookup_inserted :
    {V : Type 0} (key : Bytes) (v : V) (m : List (Bytes × V)) → lookup key (insert key v m) ≡ some v
lookup_inserted key v m = lookup-insert key key v m ∙ rw (eqb_refl key) refl

-- Of the messages with this dotted key each has this text.
abbrev pub Only : Bytes → Bytes → List KeyPath → Type 0
Only key s ps = All (λ p. ((dotted p.0 == key) ≡ false) ⊎ (p.1 ≡ s)) ps

lookup-insert_dotted_kept :
    (key s : Bytes) (ps : List KeyPath) (out : Messages)
    → Only key s ps
    → lookup key out ≡ some s
    → lookup key (insert_dotted ps out) ≡ some s
lookup-insert_dotted_kept key s [] out only h = h
lookup-insert_dotted_kept key s ((ks, v) ∷ ps) out only h =
    lookup-insert_dotted_kept key s ps (insert (dotted ks) v out) only.1 (
      lookup-insert (dotted ks) key v out ∙ elim (Bool-cases (dotted ks == key)) [
        | inl hit ↦ rw hit (elim only.0 [
          | inl miss ↦ absurd (ground (arith, hit, miss))
          | inr same ↦ ap some same
        ])
        | inr miss ↦ rw miss h
      ])

lookup-insert_dotted :
    (ks : List Bytes) (s : Bytes) (ps : List KeyPath) (out : Messages)
    → In (ks, s) ps
    → Only (dotted ks) s ps
    → lookup (dotted ks) (insert_dotted ps out) ≡ some s
lookup-insert_dotted ks s [] out there only = absurd there
lookup-insert_dotted ks s ((ls, v) ∷ ps) out (inl same) only =
    lookup-insert_dotted_kept (dotted ks) s ps (insert (dotted ls) v out) only.1 (
      subst (λ p. lookup (dotted ks) (insert (dotted p.0) p.1 out) ≡ some s) (sym same)
        (lookup_inserted (dotted ks) s out))
lookup-insert_dotted ks s ((ls, v) ∷ ps) out (inr later) only =
    lookup-insert_dotted ks s ps (insert (dotted ls) v out) later only.1

-- A message of a nested map that is loaded into a locale is found there under its keys joined by
-- dots, less the empty keys at the front, if the map has no other text under the same dotted key.
pub load_map-find :
    (b : Bundle) (locale : Bytes) (t : Nested) (ks : List Bytes) (s : Bytes)
    → In (ks, s) (paths t)
    → Only (dotted ks) s (paths t)
    → find (load_map locale t b) locale (dotted ks) ≡ some s
unfolding load_map find
load_map-find b locale t ks s there only =
    let old = or_empty (lookup locale b.messages) in
    ap (λ m. lookup (dotted ks) (or_empty m)) (lookup_inserted locale (flatten [] t old) b.messages)
    ∙ ap (λ m. lookup (dotted ks) m)
        (flatten-insert_all [] t old ∙ insert_all-insert_dotted (paths t) old)
    ∙ lookup-insert_dotted ks s (paths t) old there only
