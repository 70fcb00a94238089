-- ===== src/Openapi/Spec/Steps.antt =====
-- openapi/openapi.go: what the parts of a registration leave.
use fibr.Prelude.{ℕ, Option, none, some, List, [], ◌∷◌, inl, inr, Bool-cases, All, nat_cmp}
use fibr.Prelude.Bytes.{Bytes, bytes_cmp, All-append}
use fibr.Openapi.{Field, Reflection, Schema, Parameter}
use fibr.Openapi.Validate.{is_empty, json_name}
use fibr.Openapi.Schemas.{◌>>=◌, Answer, Components, is_struct, deref, schema_of, walk}
use fibr.Openapi.Schemas.Refs.{refs, AllRefs, validated-AllRefs}
use fibr.Openapi.Schemas.Closed.{PlainNames, Defined, Closed, Grows, walk-Sound, same_Grows, Sound}
use fibr.Openapi.Spec.{
  path_parameters, query_named, query_field, query_fields, query_params, schema_if,
}
use fibr.Openapi.Spec.Linked.{LinkedParameter, LinkedSchema, grown_parameters}

module _ (R : Reflection) (plain_names : PlainNames R) where
  -- What a step of a registration leaves: more components, closed, and a value that is linked.
  abbrev pub Leaves :
      {A : Type 0} (P : Components R → A → Type 0)
      → Components R
      → Option (A × Components R)
      → Type 0
  Leaves P cs none = Unit {0}
  Leaves P cs (some (a, cs')) = Grows R cs cs' × Closed R cs' × P cs' a

  regrown :
      {B : Type 0} (Q : Components R → B → Type 0) (cs cs' : Components R)
      (m : Option (B × Components R))
      → Grows R cs cs'
      → Leaves Q cs' m
      → Leaves Q cs m
  regrown Q cs cs' none grows h = tt
  regrown Q cs cs' (some (b, cs'')) grows h = (λ k there. h.0 k (grows k there), h.1, h.2)

  pub bind-Leaves :
      {A B : Type 0} (P : Components R → A → Type 0) (Q : Components R → B → Type 0)
      (cs : Components R) (m : Option (A × Components R))
      (f : A × Components R → Option (B × Components R))
      → Leaves P cs m
      → ((a : A) (cs' : Components R)
          → Grows R cs cs'
          → Closed R cs'
          → P cs' a
          → Leaves Q cs' (f (a, cs')))
      → Leaves Q cs (m >>= f)
  bind-Leaves P Q cs none f h g = tt
  bind-Leaves P Q cs (some (a, cs')) f h g = regrown Q cs cs' (f (a, cs')) h.0 (g a cs' h.0 h.1 h.2)

  bind_any-Leaves :
      {A B : Type 0} (Q : Components R → B → Type 0) (cs : Components R) (m : Option A)
      (f : A → Option (B × Components R))
      → ((a : A) → Leaves Q cs (f a))
      → Leaves Q cs (m >>= f)
  bind_any-Leaves Q cs none f g = tt
  bind_any-Leaves Q cs (some a) f g = g a

  abbrev LinkedOne : Components R → Schema R → Type 0
  LinkedOne cs sc = AllRefs R (Defined R cs) sc

  abbrev pub LinkedAll : Components R → List (Parameter R) → Type 0
  LinkedAll cs ps = All (LinkedParameter R cs) ps

  from_Sound : (cs : Components R) (r : Answer R) → Sound R cs r → Leaves LinkedOne cs r
  from_Sound cs none h = tt
  from_Sound cs (some (sc, cs')) h = h

  walk-Leaves :
      (n : ℕ) (t : R.GoType) (cs : Components R)
      → Closed R cs
      → Leaves LinkedOne cs (walk R n (schema_of t) cs)
  walk-Leaves n t cs closed = from_Sound cs _ (walk-Sound R plain_names n (schema_of t) cs closed)

  query_named-Leaves :
      (n : ℕ) (f : Field R.GoType) (name : Option Bytes) (cs : Components R)
      → Closed R cs
      → Leaves LinkedAll cs (query_named R n f name cs)
  query_named-Leaves n f none cs closed = (same_Grows R cs, closed, tt)
  query_named-Leaves n f (some name) cs closed =
      bind-Leaves LinkedOne LinkedAll cs (walk R n (schema_of f.type_of) cs) _
        (walk-Leaves n f.type_of cs closed)
        (λ sc cs' grows closed' h. bind_any-Leaves LinkedAll cs' (deref R n f.type_of) _ (λ p. (
          same_Grows R cs',
          closed',
          (validated-AllRefs R (Defined R cs') f (R.kind p.1) sc h, tt),
        )))

  query_field-Leaves :
      (n : ℕ) (f : Field R.GoType) (cs : Components R)
      → Closed R cs
      → Leaves LinkedAll cs (query_field R n f cs)
  query_field-Leaves n f cs closed = elim (Bool-cases (is_empty f.pkg_path)) [
    | inl exported ↦ rw exported (query_named-Leaves n f (json_name f) cs closed)
    | inr hidden ↦ rw hidden (same_Grows R cs, closed, tt)
  ]

  query_fields-Leaves :
      (n : ℕ) (fs : List (Field R.GoType)) (cs : Components R)
      → Closed R cs
      → Leaves LinkedAll cs (query_fields R n fs cs)
  unfolding query_fields
  query_fields-Leaves n [] cs closed = (same_Grows R cs, closed, tt)
  query_fields-Leaves n (f ∷ fs) cs closed =
      bind-Leaves LinkedAll LinkedAll cs (query_field R n f cs) _ (query_field-Leaves n f cs closed)
        (λ ps cs' grows closed' h.
          bind-Leaves LinkedAll LinkedAll cs' (query_fields R n fs cs') _
            (query_fields-Leaves n fs cs' closed')
            (λ more cs'' grows' closed'' g. (
              same_Grows R cs'',
              closed'',
              All-append (LinkedParameter R cs'') ps more (grown_parameters R cs' cs'' grows' ps h)
                  g,
            )))

  pub query_params-Leaves :
      (n : ℕ) (q : Option R.GoType) (cs : Components R)
      → Closed R cs
      → Leaves LinkedAll cs (query_params R n q cs)
  unfolding query_params
  query_params-Leaves n none cs closed = (same_Grows R cs, closed, tt)
  query_params-Leaves n (some q) cs closed = bind_any-Leaves LinkedAll cs (deref R n q) _ λ p.
      elim (Bool-cases (is_struct (R.kind p.1))) [
        | inl struct ↦ rw struct (query_fields-Leaves n (R.fields p.1) cs closed)
        | inr other ↦ rw other (same_Grows R cs, closed, tt)
      ]

  pub schema_if-Leaves :
      (n : ℕ) (t : Option R.GoType) (cs : Components R)
      → Closed R cs
      → Leaves (LinkedSchema R) cs (schema_if R n t cs)
  unfolding schema_if
  schema_if-Leaves n none cs closed = (same_Grows R cs, closed, tt)
  schema_if-Leaves n (some t) cs closed =
      bind-Leaves LinkedOne (LinkedSchema R) cs (walk R n (schema_of t) cs) _
        (walk-Leaves n t cs closed) (λ sc cs' grows closed' h. (same_Grows R cs', closed', h))

  pub path_parameters-Linked :
      (names : List Bytes) (cs : Components R) → LinkedAll cs (path_parameters R names)
  unfolding path_parameters refs
  path_parameters-Linked [] cs = tt
  path_parameters-Linked (name ∷ names) cs = (tt, path_parameters-Linked names cs)
