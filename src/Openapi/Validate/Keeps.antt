-- ===== src/Openapi/Validate/Keeps.antt =====
-- openapi/schema.go: the rules of `validate` do not touch a reference.
use fibr.Prelude.{
  ◌≡◌, refl, ◌∙◌, Bool, true, false, Option, none, some, List, if◌then◌else◌, ◌||◌, contains,
}
use fibr.Prelude.Bytes.{Bytes, codes, bytes_cmp}
use fibr.Prelude.Int.{ℤ}
use fibr.Prelude.Assoc.{lookup}
use fibr.Prelude.Decimal.{parse_int64}
use fibr.Openapi.{Kind, Reflection, Attrs}
use fibr.Openapi.Validate.{
  ValidateRules, apply_validate, apply_bound, with_rule, with_format, float_bound, length_bound,
  items_bound, is_numeric_kind, is_string, is_list,
}

module _ (R : Reflection) where
  with_rule_ref :
      (v : Option Bytes) (change : Bytes → Attrs R → Attrs R) (a : Attrs R)
      → ((v : Bytes) → (change v a).ref ≡ a.ref)
      → (with_rule R v change a).ref ≡ a.ref
  with_rule_ref none change a h = refl
  with_rule_ref (some v) change a h = h v

  float_bound_ref :
      (m : Bool) (f : Option R.Float) (a : Attrs R) → (float_bound R m f a).ref ≡ a.ref
  float_bound_ref m none a = refl
  float_bound_ref true (some f) a = refl
  float_bound_ref false (some f) a = refl

  length_bound_ref : (m : Bool) (n : Option ℤ) (a : Attrs R) → (length_bound R m n a).ref ≡ a.ref
  length_bound_ref m none a = refl
  length_bound_ref true (some n) a = refl
  length_bound_ref false (some n) a = refl

  items_bound_ref : (m : Bool) (n : Option ℤ) (a : Attrs R) → (items_bound R m n a).ref ≡ a.ref
  items_bound_ref m none a = refl
  items_bound_ref true (some n) a = refl
  items_bound_ref false (some n) a = refl

  pick_ref :
      (b : Bool) (x y : Attrs R) {r : Bytes} → x.ref ≡ r → y.ref ≡ r → (if b then x else y).ref ≡ r
  pick_ref true x y h g = h
  pick_ref false x y h g = g

  apply_bound_ref :
      (raw : Bytes) (m : Bool) (k : Kind) (a : Attrs R) → (apply_bound R raw m k a).ref ≡ a.ref
  unfolding apply_bound
  apply_bound_ref raw m k a =
      pick_ref (is_numeric_kind k) _ _ (float_bound_ref m (R.parse_float raw) a) (
        pick_ref (is_string k) _ _ (length_bound_ref m (parse_int64 raw) a)
          (pick_ref (is_list k) _ _ (items_bound_ref m (parse_int64 raw) a) refl))

  with_format_ref : (flags : List Bytes) (a : Attrs R) → (with_format R flags a).ref ≡ a.ref
  with_format_ref flags a = pick_ref (contains flags (codes "email")) _ _ refl (
      pick_ref (contains flags (codes "url") || contains flags (codes "uri")) _ _ refl
        (pick_ref (contains flags (codes "uuid") || contains flags (codes "uuid4")) _ _ refl refl))

  pub apply_validate_ref :
      (vr : ValidateRules) (k : Kind) (a : Attrs R) → (apply_validate R vr k a).ref ≡ a.ref
  unfolding apply_validate
  apply_validate_ref vr k a =
      with_format_ref vr.flags _
      ∙ (with_rule_ref (lookup (codes "len") vr.rules) _ _
            (λ v. apply_bound_ref v false k _ ∙ apply_bound_ref v true k _)
          ∙ (with_rule_ref (lookup (codes "max") vr.rules) _ _ (λ v. apply_bound_ref v false k _)
              ∙ (with_rule_ref (lookup (codes "min") vr.rules) _ _ (λ v. apply_bound_ref v true k _)
                  ∙ with_rule_ref (lookup (codes "oneof") vr.rules) _ a (λ v. refl))))
