-- ===== src/Query/Keyset/Seek.antt =====
-- parser/keyset.go: what the seek predicate means on a row.
use Prim.Native.String.{String}
use fibr.Prelude.{
  suc, ◌≡◌, refl, sym, ap, ◌∙◌, Bool, true, false, ◌&&◌, ◌||◌, if◌then◌else◌, List, [], ◌∷◌, arith,
  length,
}
use fibr.Query.Keyset.{
  KeysetColumn, Op, equals, less, greater, Part, descending, parts_of, groups_from, groups, snoc,
}

module _ {V : Type 0} (eqb ltb : V → V → Bool) (row : String → V) where
  -- The value of `column op ?` in a database that compares by `eqb` and `ltb`.
  abbrev compare_by : Op → V → V → Bool
  compare_by equals x v = eqb x v
  compare_by less x v = ltb x v
  compare_by greater x v = ltb v x

  abbrev pub holds : Part V → Bool
  holds p = compare_by p.op (row p.name) p.arg

  abbrev pub all_hold : List (Part V) → Bool
  all_hold [] = true
  all_hold (p ∷ ps) = holds p && all_hold ps

  abbrev pub some_hold : List (List (Part V)) → Bool
  some_hold [] = false
  some_hold (g ∷ gs) = all_hold g || some_hold gs

  -- The row comes after the values in the order of the columns: at the first column where they
  -- differ, by the column's direction.
  abbrev pub comes_after : List KeysetColumn → List V → Bool → Bool
  comes_after (c ∷ cs) (v ∷ vs) before =
      (if descending c before then ltb (row c.name) v else ltb v (row c.name))
      || (eqb (row c.name) v && comes_after cs vs before)
  comes_after cs vs before = false

  abbrev agrees : List KeysetColumn → List V → Bool
  agrees (c ∷ cs) (v ∷ vs) = eqb (row c.name) v && agrees cs vs
  agrees cs vs = true

  all_hold-parts_of :
      (es : List KeysetColumn) (us : List V) (c : KeysetColumn) (v : V) (before : Bool)
      → all_hold (parts_of es us c v before)
        ≡ (agrees es us && (if descending c before then ltb (row c.name) v else ltb v (row c.name)))
  all_hold-parts_of [] us c v before = ground arith
  all_hold-parts_of (e ∷ es) [] c v before = ground arith
  all_hold-parts_of (e ∷ es) (u ∷ us) c v before =
      ground (arith, all_hold-parts_of es us c v before)

  agrees-snoc :
      (es : List KeysetColumn) (us : List V) (c : KeysetColumn) (v : V)
      → length es ≡ length us
      → agrees (snoc es c) (snoc us v) ≡ (agrees es us && eqb (row c.name) v)
  agrees-snoc [] [] c v h = ground arith
  agrees-snoc [] (u ∷ us) c v h = absurd (omega arith)
  agrees-snoc (e ∷ es) [] c v h = absurd (omega arith)
  agrees-snoc (e ∷ es) (u ∷ us) c v h = ground (arith, agrees-snoc es us c v)

  length-snoc : {A : Type 0} (xs : List A) (a : A) → length (snoc xs a) ≡ suc (length xs)
  length-snoc [] a = refl
  length-snoc (x ∷ xs) a = ap suc (length-snoc xs a)

  some_hold-groups_from :
      (es : List KeysetColumn) (us : List V) (cs : List KeysetColumn) (vs : List V) (before : Bool)
      → length es ≡ length us
      → some_hold (groups_from es us cs vs before) ≡ (agrees es us && comes_after cs vs before)
  unfolding groups_from
  some_hold-groups_from es us [] vs before h = ground arith
  some_hold-groups_from es us (c ∷ cs) [] before h = ground arith
  some_hold-groups_from es us (c ∷ cs) (v ∷ vs) before h = ground (
    arith,
    all_hold-parts_of es us c v before,
    some_hold-groups_from (snoc es c) (snoc us v) cs vs before
        (length-snoc es c ∙ ap suc h ∙ sym (length-snoc us v)),
    agrees-snoc es us c v h,
  )

  -- The seek predicate holds on a row exactly when the row comes after the cursor's values in the
  -- lexicographic order of the columns, each in its direction, which `before` inverts.
  pub some_hold-groups :
      (cols : List KeysetColumn) (vals : List V) (before : Bool)
      → some_hold (groups cols vals before) ≡ comes_after cols vals before
  unfolding groups
  some_hold-groups cols vals before = some_hold-groups_from [] [] cols vals before refl
