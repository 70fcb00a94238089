-- ===== src/Openapi/Schemas/Endless.antt =====
-- openapi/schema.go: types for which the schema is never finished.
use fibr.Prelude.{ℕ, zero, suc, ◌≡◌, refl, true, false, none, List, [], ◌∷◌, inl, inr, Bool-cases}
use fibr.Prelude.Bytes.{bytes_cmp}
use fibr.Prelude.Assoc.{lookup}
use fibr.Openapi.{Field, Reflection, slice_kind, map_kind, pointer_kind, struct_kind}
use fibr.Openapi.Validate.{is_empty}
use fibr.Openapi.Schemas.{
  Components, schema_of, object_of, deref, base_schema, struct_schema, schema_for, object_schema,
  object_fields, add_field, walk,
}

module _ (R : Reflection) where
  -- A type that holds itself with no named struct between, as `type List []List`, or a struct whose
  -- first field embeds a pointer to the struct.
  pub data HoldsItself (t : R.GoType) : Type 0 where
    slice_of_itself : R.kind t ≡ slice_kind → R.elem_of t ≡ t → R.is_time t ≡ false → HoldsItself t
    map_of_itself : R.kind t ≡ map_kind → R.elem_of t ≡ t → R.is_time t ≡ false → HoldsItself t
    pointer_to_itself : R.kind t ≡ pointer_kind → R.elem_of t ≡ t → HoldsItself t
    embeds_itself :
        (f : Field R.GoType) (fs : List (Field R.GoType))
        → R.kind t ≡ struct_kind
        → R.is_time t ≡ false
        → R.fields t ≡ f ∷ fs
        → f.pkg_path ≡ []
        → f.anonymous ≡ true
        → f.json ≡ []
        → R.kind f.type_of ≡ pointer_kind
        → R.elem_of f.type_of ≡ t
        → HoldsItself t

  slice_endless :
      (t : R.GoType) (n : ℕ) (cs : Components R)
      → R.kind t ≡ slice_kind
      → R.elem_of t ≡ t
      → R.is_time t ≡ false
      → walk R n (schema_of t) cs ≡ none
  unfolding walk schema_for deref base_schema
  slice_endless t zero cs k self plain = refl
  slice_endless t (suc zero) cs k self plain = refl
  slice_endless t (suc (suc n)) cs k self plain =
      rw (k, plain, k, self, slice_endless t (suc n) cs k self plain) refl

  map_endless :
      (t : R.GoType) (n : ℕ) (cs : Components R)
      → R.kind t ≡ map_kind
      → R.elem_of t ≡ t
      → R.is_time t ≡ false
      → walk R n (schema_of t) cs ≡ none
  unfolding walk schema_for deref base_schema
  map_endless t zero cs k self plain = refl
  map_endless t (suc zero) cs k self plain = refl
  map_endless t (suc (suc n)) cs k self plain =
      rw (k, plain, k, self, map_endless t (suc n) cs k self plain) refl

  deref_endless :
      (t : R.GoType) (n : ℕ) → R.kind t ≡ pointer_kind → R.elem_of t ≡ t → deref R n t ≡ none
  unfolding deref
  deref_endless t zero k self = refl
  deref_endless t (suc n) k self = rw (k, self, deref_endless t n k self) refl

  pointer_endless :
      (t : R.GoType) (n : ℕ) (cs : Components R)
      → R.kind t ≡ pointer_kind
      → R.elem_of t ≡ t
      → walk R n (schema_of t) cs ≡ none
  unfolding walk schema_for
  pointer_endless t zero cs k self = refl
  pointer_endless t (suc n) cs k self = rw (deref_endless t n k self) refl

  module _ (t : R.GoType) (f : Field R.GoType) (fs : List (Field R.GoType))
      (k : R.kind t ≡ struct_kind) (plain : R.is_time t ≡ false) (first : R.fields t ≡ f ∷ fs)
      (exported : f.pkg_path ≡ []) (embedded : f.anonymous ≡ true) (untagged : f.json ≡ [])
      (p : R.kind f.type_of ≡ pointer_kind) (self : R.elem_of f.type_of ≡ t) where
    object_endless : (n : ℕ) (cs : Components R) → walk R n (object_of t) cs ≡ none
    unfolding walk object_schema object_fields add_field deref
    object_endless zero cs = refl
    object_endless (suc zero) cs = rw (first, exported, embedded, untagged) refl
    object_endless (suc (suc zero)) cs = rw (first, exported, embedded, untagged, p) refl
    object_endless (suc (suc (suc n))) cs =
        rw
          (
            first,
            exported,
            embedded,
            untagged,
            p,
            self,
            k,
            k,
            plain,
            object_endless (suc (suc n)) cs,
          )
          refl

    base_endless :
        (n : ℕ) (cs : Components R)
        → lookup (R.name t) cs ≡ none
        → base_schema R (walk R n) t cs ≡ none
    unfolding base_schema struct_schema
    base_endless n cs absent = elim (Bool-cases (is_empty (R.name t))) [
      | inl anonymous ↦ rw (plain, k, anonymous, object_endless n cs) refl
      | inr named ↦ rw (plain, k, named, absent, object_endless n _) refl
    ]

    struct_endless :
        (n : ℕ) (cs : Components R) → lookup (R.name t) cs ≡ none → walk R n (schema_of t) cs ≡ none
    unfolding walk schema_for deref
    struct_endless zero cs absent = refl
    struct_endless (suc zero) cs absent = refl
    struct_endless (suc (suc n)) cs absent = rw (k, base_endless (suc n) cs absent) refl

-- The schema of such a type is never finished, whatever fuel is given, unless the name is already among
-- the components: the code calls itself until the stack overflows, or turns in a loop.
pub walk_endless :
    (R : Reflection) (t : R.GoType) (n : ℕ) (cs : Components R)
    → HoldsItself R t
    → lookup (R.name t) cs ≡ none
    → walk R n (schema_of t) cs ≡ none
walk_endless R t n cs (slice_of_itself k self plain) absent = slice_endless R t n cs k self plain
walk_endless R t n cs (map_of_itself k self plain) absent = map_endless R t n cs k self plain
walk_endless R t n cs (pointer_to_itself k self) absent = pointer_endless R t n cs k self
walk_endless R t n cs (embeds_itself f fs k plain first exported embedded untagged p self) absent =
    struct_endless R t f fs k plain first exported embedded untagged p self n cs absent
