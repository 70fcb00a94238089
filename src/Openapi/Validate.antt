-- ===== src/Openapi/Validate.antt =====
-- openapi/schema.go: the tags of a field, and what the rules of `validate` put into a schema.
pub mod Keeps
use fibr.Prelude.{
  Bool, true, false, not, ◌&&◌, ◌||◌, ℕ, Option, none, some, List, [], ◌∷◌, ◌++◌, map,
  if◌then◌else◌, ◌==◌, contains, nat_cmp,
}
use fibr.Prelude.Int.{ℤ}
use fibr.Prelude.Bytes.{Bytes, codes, bytes_cmp, split, cut, trim_space, is_space}
use fibr.Prelude.Assoc.{lookup, insert}
use fibr.Prelude.Decimal.{parse_int64}
use fibr.Openapi.{
  Kind, string_kind, int_kind, int8_kind, int16_kind, int32_kind, int64_kind, uint_kind, uint8_kind,
  uint16_kind, uint32_kind, uint64_kind, float32_kind, float64_kind, slice_kind, array_kind, Field,
  Reflection, EnumItem, text, number, Attrs,
}

abbrev pub is_empty : Bytes → Bool
is_empty [] = true
is_empty (c ∷ s) = false

abbrev before_comma : Bytes → Option (Bytes × Bytes) → Bytes
before_comma tag none = tag
before_comma tag (some (before, behind)) = before

-- The property's name, or none if the field is skipped.
unfoldable pub json_name : {T : Type 0} → Field T → Option Bytes
json_name f =
    let before = before_comma f.json (cut 44 f.json) in
    if f.json == codes "-" then none else some (if is_empty before then f.name else before)

pub record ValidateRules : Type 0 where
  pub required : Bool
  pub rules : List (Bytes × Bytes)
  pub flags : List Bytes

abbrev pub no_rules : ValidateRules
no_rules = record { required = false; rules = []; flags = [] }

abbrev add_rule : ValidateRules → Bytes → Option (Bytes × Bytes) → ValidateRules
add_rule vr part none = record vr { flags = part ∷ vr.flags }
add_rule vr part (some (k, v)) = record vr { rules = insert k v vr.rules }

abbrev add_part : ValidateRules → Bytes → ValidateRules
add_part vr part =
    if is_empty part
    then vr
    else if part == codes "required"
    then record vr { required = true }
    else add_rule vr part (cut 61 part)

abbrev add_parts : ValidateRules → List Bytes → ValidateRules
add_parts vr [] = vr
add_parts vr (part ∷ parts) = add_parts (add_part vr (trim_space part)) parts

unfoldable pub parse_validate : Bytes → ValidateRules
parse_validate tag = if is_empty tag then no_rules else add_parts no_rules (split 44 tag)

unfoldable pub is_numeric_kind : Kind → Bool
is_numeric_kind int_kind = true
is_numeric_kind int8_kind = true
is_numeric_kind int16_kind = true
is_numeric_kind int32_kind = true
is_numeric_kind int64_kind = true
is_numeric_kind uint_kind = true
is_numeric_kind uint8_kind = true
is_numeric_kind uint16_kind = true
is_numeric_kind uint32_kind = true
is_numeric_kind uint64_kind = true
is_numeric_kind float32_kind = true
is_numeric_kind float64_kind = true
is_numeric_kind k = false

abbrev is_string : Kind → Bool
is_string string_kind = true
is_string k = false

abbrev is_list : Kind → Bool
is_list slice_kind = true
is_list array_kind = true
is_list k = false

abbrev emit : Bytes → List Bytes → List Bytes
emit [] words = words
emit (c ∷ w) words = (c ∷ w) ∷ words

-- `strings.Fields`
abbrev words_from : Bytes → Bytes → List Bytes
words_from word [] = emit word []
words_from word (c ∷ s) =
    let rest = words_from (if is_space c then [] else word ++ c ∷ []) s in
    if is_space c then emit word rest else rest

module _ (R : Reflection) where
  abbrev enum_item : Bytes → Option R.Float → EnumItem R
  enum_item item none = text item
  enum_item item (some f) = number f

  unfoldable pub parse_enum : Bytes → Kind → List (EnumItem R)
  parse_enum raw k =
      map (λ item. if is_numeric_kind k then enum_item item (R.parse_float item) else text item)
        (words_from [] raw)

  abbrev float_bound : Bool → Option R.Float → Attrs R → Attrs R
  float_bound is_min none a = a
  float_bound true (some f) a = record a { minimum = some f }
  float_bound false (some f) a = record a { maximum = some f }

  abbrev length_bound : Bool → Option ℤ → Attrs R → Attrs R
  length_bound is_min none a = a
  length_bound true (some n) a = record a { min_length = some n }
  length_bound false (some n) a = record a { max_length = some n }

  abbrev items_bound : Bool → Option ℤ → Attrs R → Attrs R
  items_bound is_min none a = a
  items_bound true (some n) a = record a { min_items = some n }
  items_bound false (some n) a = record a { max_items = some n }

  unfoldable pub apply_bound : Bytes → Bool → Kind → Attrs R → Attrs R
  apply_bound raw is_min k a =
      if is_numeric_kind k
      then float_bound is_min (R.parse_float raw) a
      else if is_string k
      then length_bound is_min (parse_int64 raw) a
      else if is_list k
      then items_bound is_min (parse_int64 raw) a
      else a

  abbrev with_rule : Option Bytes → (Bytes → Attrs R → Attrs R) → Attrs R → Attrs R
  with_rule none change a = a
  with_rule (some v) change a = change v a

  abbrev with_format : List Bytes → Attrs R → Attrs R
  with_format flags a =
      if contains flags (codes "email")
      then record a { format = codes "email" }
      else if contains flags (codes "url") || contains flags (codes "uri")
      then record a { format = codes "uri" }
      else if contains flags (codes "uuid") || contains flags (codes "uuid4")
      then record a { format = codes "uuid" }
      else a

  -- `k` is the kind behind the pointers.
  unfoldable pub apply_validate : ValidateRules → Kind → Attrs R → Attrs R
  apply_validate vr k a =
      let a1 =
        with_rule (lookup (codes "oneof") vr.rules) (λ v a. record a { enum = parse_enum v k }) a in
      let a2 = with_rule (lookup (codes "min") vr.rules) (λ v. apply_bound v true k) a1 in
      let a3 = with_rule (lookup (codes "max") vr.rules) (λ v. apply_bound v false k) a2 in
      let a4 =
        with_rule (lookup (codes "len") vr.rules)
          (λ v a. apply_bound v false k (apply_bound v true k a)) a3 in
      with_format vr.flags a4
