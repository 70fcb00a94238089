-- ===== src/Scaffold/Valid.antt =====
-- cmd/fibr/options.go: options that the generator may use.
use fibr.Prelude.{
  ◌≡◌, refl, ap, subst, String, Bool, true, false, not, ◌||◌, Option, none, some, List,
  if◌then◌else◌, ◌==◌, nat_cmp, Bool-cases, inl, inr, arith,
}
use fibr.Prelude.Bytes.{Bytes, codes, bytes_cmp}
use fibr.Scaffold.{
  interview, Options, Error, validate, resolve, first_error, finish, with_auth, with_dir, is_empty,
  not_simple,
}

-- The name is simple, the module has a path, the database and the layout are among those known, teams
-- have accounts, and there is a directory.
abbrev pub Valid : Options → Type 0
Valid o =
    (is_empty o.name ≡ false)
    × (not_simple o.name ≡ false)
    × (is_empty o.mod_path ≡ false)
    × ((o.db == codes "postgres" || o.db == codes "sqlite") ≡ true)
    × ((o.layout == codes "ddd" || o.layout == codes "layered") ≡ true)
    × ((not o.team || o.auth) ≡ true)
    × (is_empty o.dir ≡ false)

first_error-none :
    (o : Options)
    → first_error o ≡ none
    → (is_empty o.name ≡ false)
      × (not_simple o.name ≡ false)
      × (is_empty o.mod_path ≡ false)
      × ((o.db == codes "postgres" || o.db == codes "sqlite") ≡ true)
      × ((o.layout == codes "ddd" || o.layout == codes "layered") ≡ true)
first_error-none o h = ground arith

with_dir-full : (o : Options) → is_empty o.name ≡ false → is_empty (with_dir o).dir ≡ false
with_dir-full o named = elim (Bool-cases (is_empty o.dir)) [
  | inl bare ↦ rw bare named
  | inr full ↦ rw full full
]

team_auth : (o : Options) → (not (with_auth o).team || (with_auth o).auth) ≡ true
team_auth o = elim (Bool-cases o.team) [
  | inl teams ↦ rw teams (ground (arith, teams))
  | inr alone ↦ rw alone (ground (arith, alone))
]

finish_ok :
    (o o' : Options) (e : Option Error) → finish o e ≡ (o', none) → (e ≡ none) × (with_dir o ≡ o')
finish_ok o o' none h = (refl, ap (λ r. r.0) h)
finish_ok o o' (some e) h = absurd (ground arith)

with_dir-Valid :
    (o : Options) → first_error o ≡ none → (not o.team || o.auth) ≡ true → Valid (with_dir o)
with_dir-Valid o h teams =
    let (name, simple, path, db, layout) = first_error-none o h in
    let dir = with_dir-full o name in
    elim (Bool-cases (is_empty o.dir)) [
      | inl bare ↦ rw bare (name, simple, path, db, layout, teams, name)
      | inr full ↦ rw full (name, simple, path, db, layout, teams, full)
    ]

-- Options that `Resolve` lets pass are `Valid`, whatever flags were given and whatever was typed.
resolve-Valid :
    (changed : String → Bool) (interactive : Bool) (input : List Bytes) (o o' : Options)
    → resolve changed interactive input o ≡ (o', none)
    → Valid o'
unfolding resolve validate
resolve-Valid changed interactive input o o' h =
    let given = if interactive then interview changed o input else o in
    let (fine, done) = finish_ok (with_auth given) o' (first_error (with_auth given)) h in
    subst Valid done (with_dir-Valid (with_auth given) fine (team_auth given))
