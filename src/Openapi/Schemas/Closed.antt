-- ===== src/Openapi/Schemas/Closed.antt =====
-- openapi/schema.go: every reference that is made names a component.
use fibr.Prelude.{
  ℕ, zero, suc, ◌≡◌, refl, subst, Bool, true, false, not, ◌&&◌, ◌||◌, leb, nat_cmp, Option, none,
  some, List, [], ◌∷◌, ◌++◌, inl, inr, ◌==◌, Bool-cases, arith, All, eqb_refl,
}
use fibr.Prelude.Bytes.{Bytes, bytes_cmp, All-append}
use fibr.Prelude.Assoc.{lookup, insert, lookup-insert}
use fibr.Openapi.{
  Kind, Field, Reflection, Schema, string_kind, struct_kind, slice_kind, array_kind, map_kind,
}
use fibr.Openapi.Validate.{is_empty, json_name, parse_validate}
use fibr.Openapi.Schemas.{
  ◌>>=◌, Components, ref_prefix, empty_object, Query, schema_of, object_of, Answer, Walk, deref,
  array_of, map_of, named_struct, struct_schema, by_kind, base_schema, schema_for, add_named,
  add_embedded, add_field, object_fields, object_schema, answer, walk, is_struct, validated,
}
use fibr.Openapi.Schemas.Refs.{
  refs, AllRefs, absorb-AllRefs, validated-AllRefs, add_property-AllRefs, with_nullable-AllRefs,
}

abbrev is_letter : ℕ → Bool
is_letter c = (leb 65 c && leb c 90) || (leb 97 c && leb c 122) || (leb 48 c && leb c 57) || c == 95

-- Letters, digits and underscores.
unfoldable pub is_word : Bytes → Bool
is_word [] = true
is_word (c ∷ s) = is_letter c && is_word s

module _ (R : Reflection) where
  abbrev is_some : Option (Schema R) → Bool
  is_some none = false
  is_some (some sc) = true

  abbrev pub has : Bytes → Components R → Bool
  has name cs = is_some (lookup name cs)

  -- The names of the types are words, as those of all types without type arguments are.
  abbrev pub PlainNames : Type 0
  PlainNames = (t : R.GoType) → is_word (R.name t) ≡ true

  -- The reference, as a JSON pointer, leads to a component: its last token has nothing to decode.
  abbrev pub Defined : Components R → Bytes → Type 0
  Defined cs r =
      (name : Bytes) × (r ≡ ref_prefix ++ name) × (is_word name ≡ true) × (has name cs ≡ true)

  -- Every reference in a component names a component.
  abbrev pub Closed : Components R → Type 0
  Closed cs = (k : Bytes) (sc : Schema R) → lookup k cs ≡ some sc → AllRefs R (Defined cs) sc

  abbrev pub Grows : Components R → Components R → Type 0
  Grows cs cs' = (k : Bytes) → has k cs ≡ true → has k cs' ≡ true

  pub All-Grows :
      (cs cs' : Components R) (rs : List Bytes)
      → Grows cs cs'
      → All (Defined cs) rs
      → All (Defined cs') rs
  All-Grows cs cs' [] grows h = tt
  All-Grows cs cs' (r ∷ rs) grows h =
      ((h.0.0, h.0.1, h.0.2, grows h.0.0 h.0.3), All-Grows cs cs' rs grows h.1)

  insert-Grows : (name : Bytes) (obj : Schema R) (cs : Components R) → Grows cs (insert name obj cs)
  insert-Grows name obj cs k h = ground (arith, lookup-insert name k obj cs)

  insert-has :
      (name : Bytes) (obj : Schema R) (cs : Components R) → has name (insert name obj cs) ≡ true
  insert-has name obj cs = ground (arith, lookup-insert name name obj cs, eqb_refl name)

  insert-Closed :
      (name : Bytes) (obj : Schema R) (cs : Components R)
      → Closed cs
      → AllRefs R (Defined cs) obj
      → Closed (insert name obj cs)
  insert-Closed name obj cs closed h k sc there = elim (Bool-cases (name == k)) [
    | inl own ↦
        let same : obj ≡ sc = ground (arith, lookup-insert name k obj cs) in
        subst (AllRefs R (Defined (insert name obj cs))) same
          (All-Grows cs _ (refs R obj) (insert-Grows name obj cs) h)
    | inr other ↦
        All-Grows cs _ (refs R sc) (insert-Grows name obj cs)
          (closed k sc (ground (arith, lookup-insert name k obj cs)))
  ]

  -- What an answer leaves, if there is one.
  abbrev pub Sound : Components R → Answer R → Type 0
  Sound cs none = Unit {0}
  Sound cs (some (sc, cs')) = Grows cs cs' × Closed cs' × AllRefs R (Defined cs') sc

  abbrev SoundWalk : Walk R → Type 0
  SoundWalk rec = (q : Query R) (cs : Components R) → Closed cs → Sound cs (rec q cs)

  bind-Sound :
      (cs start : Components R) (r : Answer R) (f : Schema R × Components R → Answer R)
      → Grows start cs
      → Sound cs r
      → ((sc : Schema R) (cs' : Components R)
          → Grows start cs'
          → Closed cs'
          → AllRefs R (Defined cs') sc
          → Sound start (f (sc, cs')))
      → Sound start (r >>= f)
  bind-Sound cs start none f grows h g = tt
  bind-Sound cs start (some (sc, cs')) f grows h g =
      g sc cs' (λ k there. h.0 k (grows k there)) h.1 h.2

  bind_any-Sound :
      {A : Type 0} (cs : Components R) (m : Option A) (f : A → Answer R)
      → ((a : A) → Sound cs (f a))
      → Sound cs (m >>= f)
  bind_any-Sound cs none f g = tt
  bind_any-Sound cs (some a) f g = g a

  pub same_Grows : (cs : Components R) → Grows cs cs
  same_Grows cs k h = h

  Sound-Grows :
      (start cs : Components R) (r : Answer R) → Grows start cs → Sound cs r → Sound start r
  Sound-Grows start cs none grows h = tt
  Sound-Grows start cs (some (sc, cs')) grows h = (λ k there. h.0 k (grows k there), h.1, h.2)

  module _ (plain_names : PlainNames) (rec : Walk R) (sound : SoundWalk rec) where
    array_of-Sound :
        (t : R.GoType) (cs : Components R)
        → Closed cs
        → Sound cs (array_of R (rec (schema_of t) cs))
    unfolding refs
    array_of-Sound t cs closed =
        bind-Sound cs cs (rec (schema_of t) cs) _ (same_Grows cs) (sound (schema_of t) cs closed)
          (λ sc cs' grows closed' h. (grows, closed', All-append (Defined cs') (refs R sc) [] h tt))

    named_struct-Sound :
        (t : R.GoType) (name : Bytes) (cs : Components R) (found : Option (Schema R))
        → Closed cs
        → is_word name ≡ true
        → found ≡ lookup name cs
        → Sound cs (named_struct R rec t name cs found)
    unfolding refs
    named_struct-Sound t name cs (some known) closed word e =
        (same_Grows cs, closed, ((name, refl, word, ground arith), tt))
    named_struct-Sound t name cs none closed word e =
        let cs0 = insert name (empty_object R) cs in
        let closed0 = insert-Closed name (empty_object R) cs closed tt in
        bind-Sound cs0 cs (rec (object_of t) cs0) _ (insert-Grows name (empty_object R) cs)
          (sound (object_of t) cs0 closed0)
          (λ obj cs' grows closed' h. (
            λ k there. insert-Grows name obj cs' k (grows k there),
            insert-Closed name obj cs' closed' h,
            ((name, refl, word, insert-has name obj cs'), tt),
          ))

    map_of-Sound :
        (t : R.GoType) (cs : Components R) → Closed cs → Sound cs (map_of R (rec (schema_of t) cs))
    unfolding refs
    map_of-Sound t cs closed =
        bind-Sound cs cs (rec (schema_of t) cs) _ (same_Grows cs) (sound (schema_of t) cs closed)
          (λ sc cs' grows closed' h. (grows, closed', h))

    struct_schema-Sound :
        (t : R.GoType) (cs : Components R) → Closed cs → Sound cs (struct_schema R rec t cs)
    unfolding struct_schema
    struct_schema-Sound t cs closed = elim (Bool-cases (is_empty (R.name t))) [
      | inl anonymous ↦ rw anonymous (sound (object_of t) cs closed)
      | inr named ↦
          rw named
            (named_struct-Sound t (R.name t) cs (lookup (R.name t) cs) closed (plain_names t) refl)
    ]

    by_kind-Sound :
        (t : R.GoType) (cs : Components R) (k : Kind) → Closed cs → Sound cs (by_kind R rec t cs k)
    unfolding refs
    by_kind-Sound t cs slice_kind closed = array_of-Sound (R.elem_of t) cs closed
    by_kind-Sound t cs array_kind closed = array_of-Sound (R.elem_of t) cs closed
    by_kind-Sound t cs map_kind closed = map_of-Sound (R.elem_of t) cs closed
    by_kind-Sound t cs struct_kind closed = struct_schema-Sound t cs closed
    by_kind-Sound t cs string_kind closed = (same_Grows cs, closed, tt)
    by_kind-Sound t cs k closed = (same_Grows cs, closed, tt)

    base_schema-Sound :
        (t : R.GoType) (cs : Components R) → Closed cs → Sound cs (base_schema R rec t cs)
    unfolding base_schema refs
    base_schema-Sound t cs closed = elim (Bool-cases (R.is_time t)) [
      | inl time ↦ rw time (same_Grows cs, closed, tt)
      | inr other ↦ rw other (by_kind-Sound t cs (R.kind t) closed)
    ]

    schema_for-Sound :
        (n : ℕ) (t : R.GoType) (cs : Components R) → Closed cs → Sound cs (schema_for R n rec t cs)
    unfolding schema_for
    schema_for-Sound n t cs closed = bind_any-Sound cs (deref R n t) _ (λ p.
        bind-Sound cs cs (base_schema R rec p.1 cs) _ (same_Grows cs)
          (base_schema-Sound p.1 cs closed)
          (λ sc cs' grows closed' h.
            (grows, closed', with_nullable-AllRefs R (Defined cs') p.0 sc h)))

    -- What a step over one field leaves.
    add_named-Sound :
        (n : ℕ) (f : Field R.GoType) (name : Option Bytes) (obj : Schema R) (cs : Components R)
        → Closed cs
        → AllRefs R (Defined cs) obj
        → Sound cs (add_named R n rec f name obj cs)
    add_named-Sound n f none obj cs closed h = (same_Grows cs, closed, h)
    add_named-Sound n f (some name) obj cs closed h =
        bind-Sound cs cs (rec (schema_of f.type_of) cs) _ (same_Grows cs)
          (sound (schema_of f.type_of) cs closed)
          (λ fs cs' grows closed' g. bind_any-Sound cs (deref R n f.type_of) _ (λ p. (
            grows,
            closed',
            add_property-AllRefs R (Defined cs') name (parse_validate f.validate).required
                (validated R f (R.kind p.1) fs) obj
                (validated-AllRefs R (Defined cs') f (R.kind p.1) fs g)
                (All-Grows cs cs' (refs R obj) grows h),
          )))

    add_embedded-Sound :
        (n : ℕ) (f : Field R.GoType) (ft : R.GoType) (obj : Schema R) (cs : Components R)
        → Closed cs
        → AllRefs R (Defined cs) obj
        → Sound cs (add_embedded R n rec f ft obj cs)
    add_embedded-Sound n f ft obj cs closed h =
        elim (Bool-cases (is_struct (R.kind ft) && not (R.is_time ft))) [
          | inr plain ↦ rw plain (add_named-Sound n f (json_name f) obj cs closed h)
          | inl inner ↦ rw inner (
              bind-Sound cs cs (rec (object_of ft) cs) _ (same_Grows cs)
                (sound (object_of ft) cs closed)
                (λ sub cs' grows closed' g. (
                  grows,
                  closed',
                  absorb-AllRefs R (Defined cs') sub obj g (All-Grows cs cs' (refs R obj) grows h),
                )))
        ]

    add_field-Sound :
        (n : ℕ) (f : Field R.GoType) (obj : Schema R) (cs : Components R)
        → Closed cs
        → AllRefs R (Defined cs) obj
        → Sound cs (add_field R n rec f obj cs)
    unfolding add_field
    add_field-Sound n f obj cs closed h = elim (Bool-cases (not (is_empty f.pkg_path))) [
      | inl hidden ↦ rw hidden (same_Grows cs, closed, h)
      | inr exported ↦ rw exported (elim (Bool-cases (f.anonymous && is_empty f.json)) [
        | inr plain ↦ rw plain (add_named-Sound n f (json_name f) obj cs closed h)
        | inl embedded ↦ rw embedded (
            bind_any-Sound cs (deref R n f.type_of) _
              (λ p. add_embedded-Sound n f p.1 obj cs closed h))
      ])
    ]

    object_fields-Sound :
        (n : ℕ) (fs : List (Field R.GoType)) (obj : Schema R) (cs : Components R)
        → Closed cs
        → AllRefs R (Defined cs) obj
        → Sound cs (object_fields R n rec fs obj cs)
    unfolding object_fields
    object_fields-Sound n [] obj cs closed h = (same_Grows cs, closed, h)
    object_fields-Sound n (f ∷ fs) obj cs closed h =
        bind-Sound cs cs (add_field R n rec f obj cs) _ (same_Grows cs)
          (add_field-Sound n f obj cs closed h)
          (λ obj' cs' grows closed' h'.
            Sound-Grows cs cs' (object_fields R n rec fs obj' cs') grows
              (object_fields-Sound n fs obj' cs' closed' h'))

    answer-Sound : (n : ℕ) → SoundWalk (answer R n rec)
    unfolding object_schema refs
    answer-Sound n (schema_of t) cs closed = schema_for-Sound n t cs closed
    answer-Sound n (object_of t) cs closed =
        object_fields-Sound n (R.fields t) (empty_object R) cs closed tt

  -- Whatever the fuel, an answer keeps the components closed, and its references name components.
  pub walk-Sound : PlainNames → (n : ℕ) → SoundWalk (walk R n)
  unfolding walk
  walk-Sound plain_names zero q cs closed = tt
  walk-Sound plain_names (suc n) q cs closed =
      answer-Sound plain_names (walk R n) (walk-Sound plain_names n) n q cs closed
