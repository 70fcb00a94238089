-- ===== src/Openapi/Schemas.antt =====
-- openapi/schema.go: the schema of a type. The functions call one another; here each asks `walk` for
-- the schema of a type or of a struct's fields, on fuel, and `none` means that the fuel ran out.
pub mod Refs
pub mod Closed
pub mod Endless
use fibr.Prelude.{
  ℕ, zero, suc, Bool, true, false, not, ◌&&◌, ◌||◌, Option, none, some, List, [], ◌∷◌, ◌++◌,
  if◌then◌else◌, ◌==◌,
}
use fibr.Prelude.Bytes.{Bytes, codes, bytes_cmp}
use fibr.Prelude.Assoc.{lookup, insert}
use fibr.Openapi.{
  Kind, bool_kind, int_kind, int8_kind, int16_kind, int32_kind, int64_kind, uint_kind, uint8_kind,
  uint16_kind, uint32_kind, uint64_kind, float32_kind, float64_kind, string_kind, slice_kind,
  array_kind, map_kind, struct_kind, pointer_kind, Field, Reflection, Attrs, no_attrs, Schema, node,
  Properties, no_property, property, Child, no_child, child,
}
use fibr.Openapi.Validate.{is_empty, json_name, parse_validate, apply_validate}

infixl 5 ◌>>=◌
abbrev pub ◌>>=◌ : {A B : Type 0} → Option A → (A → Option B) → Option B
none >>= f = none
some a >>= f = f a

abbrev is_pointer : Kind → Bool
is_pointer pointer_kind = true
is_pointer k = false

abbrev pub is_struct : Kind → Bool
is_struct struct_kind = true
is_struct k = false

abbrev pub ref_prefix : Bytes
ref_prefix = codes "#/components/schemas/"

module _ (R : Reflection) where
  abbrev pub Components : Type 0
  Components = List (Bytes × Schema R)

  abbrev plain : Bytes → Bytes → Schema R
  plain type_name format =
      node (record (no_attrs R) { type_name = type_name; format = format }) no_property no_child
        no_child

  abbrev pub empty_object : Schema R
  empty_object = plain (codes "object") []

  abbrev pub reference : Bytes → Schema R
  reference name =
      node (record (no_attrs R) { ref = ref_prefix ++ name }) no_property no_child no_child

  -- `for t.Kind() == reflect.Pointer { t = t.Elem() }`, and whether there was a pointer.
  unfoldable pub deref : ℕ → R.GoType → Option (Bool × R.GoType)
  deref zero t = none
  deref (suc n) t =
      let rest = deref n (R.elem_of t) >>= (λ p. some (true, p.1)) in
      if is_pointer (R.kind t) then rest else some (false, t)

  -- A reference takes no keyword beside it.
  abbrev pub with_nullable : Bool → Schema R → Schema R
  with_nullable nullable (node a ps items more) =
      node (if nullable && is_empty a.ref then record a { nullable = true } else a) ps items more

  pub data Query : Type 0 where
    schema_of object_of : R.GoType → Query

  abbrev pub Answer : Type 0
  Answer = Option (Schema R × Components)

  abbrev pub Walk : Type 0
  Walk = Query → Components → Answer

  abbrev array_of : Answer → Answer
  array_of r = do
    (items, cs) ← r
    some (
      node (record (no_attrs R) { type_name = codes "array" }) no_property (child items) no_child,
      cs,
    )

  abbrev map_of : Answer → Answer
  map_of r = do
    (more, cs) ← r
    some (
      node (record (no_attrs R) { type_name = codes "object" }) no_property no_child (child more),
      cs,
    )

  -- A name is reserved before the fields are read.
  abbrev store_object : Bytes → Answer → Answer
  store_object name r = do (obj, cs) ← r; some (reference name, insert name obj cs)

  abbrev named_struct : Walk → R.GoType → Bytes → Components → Option (Schema R) → Answer
  named_struct rec t name cs (some known) = some (reference name, cs)
  named_struct rec t name cs none =
      store_object name (rec (object_of t) (insert name empty_object cs))

  unfoldable pub struct_schema : Walk → R.GoType → Components → Answer
  struct_schema rec t cs =
      if is_empty (R.name t)
      then rec (object_of t) cs
      else named_struct rec t (R.name t) cs (lookup (R.name t) cs)

  abbrev by_kind : Walk → R.GoType → Components → Kind → Answer
  by_kind rec t cs string_kind = some (plain (codes "string") [], cs)
  by_kind rec t cs bool_kind = some (plain (codes "boolean") [], cs)
  by_kind rec t cs int_kind = some (plain (codes "integer") [], cs)
  by_kind rec t cs int8_kind = some (plain (codes "integer") [], cs)
  by_kind rec t cs int16_kind = some (plain (codes "integer") [], cs)
  by_kind rec t cs int32_kind = some (plain (codes "integer") [], cs)
  by_kind rec t cs uint_kind = some (plain (codes "integer") [], cs)
  by_kind rec t cs uint8_kind = some (plain (codes "integer") [], cs)
  by_kind rec t cs uint16_kind = some (plain (codes "integer") [], cs)
  by_kind rec t cs uint32_kind = some (plain (codes "integer") [], cs)
  by_kind rec t cs int64_kind = some (plain (codes "integer") (codes "int64"), cs)
  by_kind rec t cs uint64_kind = some (plain (codes "integer") (codes "int64"), cs)
  by_kind rec t cs float32_kind = some (plain (codes "number") (codes "float"), cs)
  by_kind rec t cs float64_kind = some (plain (codes "number") (codes "double"), cs)
  by_kind rec t cs slice_kind = array_of (rec (schema_of (R.elem_of t)) cs)
  by_kind rec t cs array_kind = array_of (rec (schema_of (R.elem_of t)) cs)
  by_kind rec t cs map_kind = map_of (rec (schema_of (R.elem_of t)) cs)
  by_kind rec t cs struct_kind = struct_schema rec t cs
  by_kind rec t cs k = some (plain [] [], cs)

  unfoldable pub base_schema : Walk → R.GoType → Components → Answer
  base_schema rec t cs =
      if R.is_time t
      then some (plain (codes "string") (codes "date-time"), cs)
      else by_kind rec t cs (R.kind t)

  unfoldable pub schema_for : ℕ → Walk → R.GoType → Components → Answer
  schema_for n rec t cs = do
    (nullable, t') ← deref n t
    (sc, cs') ← base_schema rec t' cs
    some (with_nullable nullable sc, cs')

  -- `properties[k] = v`
  unfoldable pub set_property : Bytes → Schema R → Properties R → Properties R
  set_property k v no_property = property k v no_property
  set_property k v (property j w ps) =
      let rest = set_property k v ps in if j == k then property k v ps else property j w rest

  unfoldable pub set_properties : Properties R → Properties R → Properties R
  set_properties no_property ps = ps
  set_properties (property k v more) ps = set_properties more (set_property k v ps)

  -- The fields of an embedded struct become fields of the struct around it.
  unfoldable pub absorb : Schema R → Schema R → Schema R
  absorb (node b qs i m) (node a ps items more) =
      node (record a { required = a.required ++ b.required }) (set_properties qs ps) items more

  abbrev pub validated : Field R.GoType → Kind → Schema R → Schema R
  validated f k (node a ps items more) =
      node (apply_validate R (parse_validate f.validate) k a) ps items more

  abbrev add_property : Bytes → Bool → Schema R → Schema R → Schema R
  add_property name required fs (node a ps items more) =
      node (if required then record a { required = a.required ++ name ∷ [] } else a)
        (set_property name fs ps) items more

  abbrev add_named : ℕ → Walk → Field R.GoType → Option Bytes → Schema R → Components → Answer
  add_named n rec f none obj cs = some (obj, cs)
  add_named n rec f (some name) obj cs = do
    (fs, cs') ← rec (schema_of f.type_of) cs
    (p, t) ← deref n f.type_of
    some (
      add_property name (parse_validate f.validate).required (validated f (R.kind t) fs) obj,
      cs',
    )

  abbrev add_embedded : ℕ → Walk → Field R.GoType → R.GoType → Schema R → Components → Answer
  add_embedded n rec f ft obj cs =
      if is_struct (R.kind ft) && not (R.is_time ft)
      then (do (sub, cs') ← rec (object_of ft) cs; some (absorb sub obj, cs'))
      else add_named n rec f (json_name f) obj cs

  unfoldable pub add_field : ℕ → Walk → Field R.GoType → Schema R → Components → Answer
  add_field n rec f obj cs =
      if not (is_empty f.pkg_path)
      then some (obj, cs)
      else if f.anonymous && is_empty f.json
      then (do (p, ft) ← deref n f.type_of; add_embedded n rec f ft obj cs)
      else add_named n rec f (json_name f) obj cs

  unfoldable pub object_fields : ℕ → Walk → List (Field R.GoType) → Schema R → Components → Answer
  object_fields n rec [] obj cs = some (obj, cs)
  object_fields n rec (f ∷ fs) obj cs = do
    (obj', cs') ← add_field n rec f obj cs
    object_fields n rec fs obj' cs'

  unfoldable pub object_schema : ℕ → Walk → R.GoType → Components → Answer
  object_schema n rec t cs = object_fields n rec (R.fields t) empty_object cs

  abbrev pub answer : ℕ → Walk → Walk
  answer n rec (schema_of t) cs = schema_for n rec t cs
  answer n rec (object_of t) cs = object_schema n rec t cs

  unfoldable pub walk : ℕ → Walk
  walk zero q cs = none
  walk (suc n) q cs = answer n (walk n) q cs
