-- ===== src/Openapi/Schemas/Refs.antt =====
-- openapi/schema.go: the references in a schema, and that the operations on schemas add none of their
-- own.
use fibr.Prelude.{
  ◌≡◌, refl, Bool, true, ◌&&◌, List, [], ◌∷◌, ◌++◌, inl, inr, ◌==◌, Bool-cases, All, nat_cmp,
}
use fibr.Prelude.Bytes.{Bytes, bytes_cmp, All-append}
use fibr.Openapi.{
  Kind, Field, Reflection, Attrs, Schema, node, Properties, no_property, property, Child, no_child,
  child,
}
use fibr.Openapi.Validate.{is_empty, parse_validate, apply_validate}
use fibr.Openapi.Validate.Keeps.{apply_validate_ref}
use fibr.Openapi.Schemas.{
  with_nullable, set_property, set_properties, absorb, validated, add_property,
}

module _ (R : Reflection) where
  -- The reference of a node, if it has one.
  abbrev own_ref : Bytes → List Bytes
  own_ref [] = []
  own_ref (c ∷ r) = (c ∷ r) ∷ []

  unfoldable mutual
    pub refs : Schema R → List Bytes
    refs (node a ps items more) =
        own_ref a.ref ++ (refs_of ps ++ (child_refs items ++ child_refs more))

    pub refs_of : Properties R → List Bytes
    refs_of no_property = []
    refs_of (property k sc ps) = refs sc ++ refs_of ps

    pub child_refs : Child R → List Bytes
    child_refs no_child = []
    child_refs (child sc) = refs sc

module _ (R : Reflection) (P : Bytes → Type 0) where
  -- Every reference satisfies the predicate.
  abbrev pub AllRefs : Schema R → Type 0
  AllRefs sc = All P (refs R sc)

  abbrev pub AllRefsOf : Properties R → Type 0
  AllRefsOf ps = All P (refs_of R ps)

  split_All : (xs ys : List Bytes) → All P (xs ++ ys) → All P xs × All P ys
  split_All [] ys h = (tt, h)
  split_All (x ∷ xs) ys h = let (l, r) = split_All xs ys h.1 in ((h.0, l), r)

  pub set_property-AllRefs :
      (k : Bytes) (sc : Schema R) (ps : Properties R)
      → AllRefs sc
      → AllRefsOf ps
      → AllRefsOf (set_property R k sc ps)
  unfolding set_property refs
  set_property-AllRefs k sc no_property h g = All-append P (refs R sc) [] h tt
  set_property-AllRefs k sc (property j w ps) h g =
      let (l, r) = split_All (refs R w) (refs_of R ps) g in
      elim (Bool-cases (j == k)) [
        | inl same ↦ rw same (All-append P (refs R sc) (refs_of R ps) h r)
        | inr other ↦ rw other (
            All-append P (refs R w) (refs_of R (set_property R k sc ps)) l
              (set_property-AllRefs k sc ps h r))
      ]

  pub set_properties-AllRefs :
      (qs ps : Properties R) → AllRefsOf qs → AllRefsOf ps → AllRefsOf (set_properties R qs ps)
  unfolding set_properties refs
  set_properties-AllRefs no_property ps h g = g
  set_properties-AllRefs (property k sc qs) ps h g =
      let (l, r) = split_All (refs R sc) (refs_of R qs) h in
      set_properties-AllRefs qs (set_property R k sc ps) r (set_property-AllRefs k sc ps l g)

  -- The parts of a node.
  abbrev Parts : Attrs R → Properties R → Child R → Child R → Type 0
  Parts a ps items more =
      All P (own_ref R a.ref) × AllRefsOf ps × All P (child_refs R items ++ child_refs R more)

  node-Parts :
      (a : Attrs R) (ps : Properties R) (items more : Child R)
      → AllRefs (node a ps items more)
      → Parts a ps items more
  unfolding refs
  node-Parts a ps items more h =
      let (own, rest) = split_All (own_ref R a.ref) _ h in
      let (inside, behind) = split_All (refs_of R ps) _ rest in (own, inside, behind)

  node-AllRefs :
      (a : Attrs R) (ps : Properties R) (items more : Child R)
      → Parts a ps items more
      → AllRefs (node a ps items more)
  unfolding refs
  node-AllRefs a ps items more (own, inside, behind) =
      All-append P (own_ref R a.ref) _ own (All-append P (refs_of R ps) _ inside behind)

  -- A change that keeps the reference keeps all references.
  with_attrs-AllRefs :
      (a b : Attrs R) (ps : Properties R) (items more : Child R)
      → b.ref ≡ a.ref
      → AllRefs (node a ps items more)
      → AllRefs (node b ps items more)
  with_attrs-AllRefs a b ps items more same h =
      let (own, inside, behind) = node-Parts a ps items more h in
      node-AllRefs b ps items more (rw same own, inside, behind)

  pub with_nullable-AllRefs :
      (b : Bool) (sc : Schema R) → AllRefs sc → AllRefs (with_nullable R b sc)
  with_nullable-AllRefs b (node a ps items more) h = elim (Bool-cases (b && is_empty a.ref)) [
    | inl yes_it_is ↦
        rw yes_it_is (with_attrs-AllRefs a (record a { nullable = true }) ps items more refl h)
    | inr not_it ↦ rw not_it h
  ]

  pub absorb-AllRefs : (sub obj : Schema R) → AllRefs sub → AllRefs obj → AllRefs (absorb R sub obj)
  unfolding absorb
  absorb-AllRefs (node b qs i m) (node a ps items more) h g =
      let (_, sub, _) = node-Parts b qs i m h in
      let (own, inside, behind) = node-Parts a ps items more g in
      node-AllRefs (record a { required = a.required ++ b.required }) (set_properties R qs ps) items
        more (own, set_properties-AllRefs qs ps sub inside, behind)

  pub validated-AllRefs :
      (f : Field R.GoType) (k : Kind) (sc : Schema R) → AllRefs sc → AllRefs (validated R f k sc)
  validated-AllRefs f k (node a ps items more) h =
      with_attrs-AllRefs a (apply_validate R (parse_validate f.validate) k a) ps items more
        (apply_validate_ref R (parse_validate f.validate) k a) h

  pub add_property-AllRefs :
      (name : Bytes) (required : Bool) (fs obj : Schema R)
      → AllRefs fs
      → AllRefs obj
      → AllRefs (add_property R name required fs obj)
  add_property-AllRefs name required fs (node a ps items more) h g =
      let (own, inside, behind) = node-Parts a ps items more g in
      let added = set_property-AllRefs name fs ps h inside in
      elim (Bool-cases required) [
        | inl must ↦ rw must (
            node-AllRefs (record a { required = a.required ++ name ∷ [] })
              (set_property R name fs ps) items more (own, added, behind))
        | inr may ↦
            rw may (node-AllRefs a (set_property R name fs ps) items more (own, added, behind))
      ]
