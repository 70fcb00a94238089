-- ===== src/Scaffold/Generate/Distinct.antt =====
-- cmd/fibr/generate.go: the files of a project, and that no two of them are one file.
use fibr.Prelude.{
  ◌≡◌, refl, ap, ◌∙◌, Bool, true, false, not, ◌&&◌, ◌||◌, List, [], ◌∷◌, ◌++◌, ◌⊎◌, inl, inr, arith,
  contains, All,
}
use fibr.Prelude.Bytes.{Bytes, codes, bytes_cmp}
use fibr.Scaffold.Files.{is_clean}
use fibr.Scaffold.Plan.{
  Context, project, feature, ProjectData, ModuleData, FileSpec, plan, plan_auth, plan_queue,
  plan_realtime, plan_i18n, plan_module,
}

-- A file that is rendered with a context.
abbrev pub Job : Type 0
Job = FileSpec × Context

abbrev pub jobs : Context → List FileSpec → List Job
jobs ctx [] = []
jobs ctx (f ∷ fs) = (f, ctx) ∷ jobs ctx fs

abbrev pub dests : List Job → List Bytes
dests [] = []
dests ((f, ctx) ∷ js) = f.dest ∷ dests js

-- The names are clean, and no two of them are equal.
abbrev pub distinct : List Bytes → Bool
distinct [] = true
distinct (d ∷ ds) = is_clean d && not (contains ds d) && distinct ds

pub distinct-All : (ds : List Bytes) → distinct ds ≡ true → All (λ d. is_clean d ≡ true) ds
distinct-All [] h = tt
distinct-All (d ∷ ds) h = (ground arith, distinct-All ds (ground arith))

abbrev pub chosen : Bool → List Job → List Job
chosen true js = js
chosen false js = []

-- All files of a project but its migrations, in the order in which they are rendered.
unfoldable pub planned : ProjectData → ModuleData → List Job
planned d md =
    jobs (project d) (plan d)
    ++ chosen d.sample (jobs (feature md) (plan_module md))
    ++ chosen d.auth (jobs (project d) (plan_auth d))
    ++ chosen d.queue (jobs (project d) (plan_queue d))
    ++ chosen d.realtime (jobs (project d) (plan_realtime d))
    ++ chosen d.i18n (jobs (project d) (plan_i18n d))

contains-append :
    (xs ys : List Bytes) (a : Bytes) → contains (xs ++ ys) a ≡ (contains xs a || contains ys a)
contains-append [] ys a = refl
contains-append (x ∷ xs) ys a = ground (arith, contains-append xs ys a)

-- Two lists that repeat nothing together repeat nothing alone, and share nothing.
pub distinct-append :
    (xs ys : List Bytes)
    → distinct (xs ++ ys) ≡ true
    → (distinct xs ≡ true) × (distinct ys ≡ true) × All (λ x. contains ys x ≡ false) xs
distinct-append [] ys h = (refl, h, tt)
distinct-append (x ∷ xs) ys h =
    let (l, r, apart) = distinct-append xs ys (ground arith) in
    (ground (arith, contains-append xs ys x), r, (ground (arith, contains-append xs ys x), apart))

pub dests-append : (js ks : List Job) → dests (js ++ ks) ≡ dests js ++ dests ks
dests-append [] ks = refl
dests-append ((f, ctx) ∷ js) ks = ap (λ ds. f.dest ∷ ds) (dests-append js ks)

abbrev test_all : (Bool → Bool) → Bool
test_all p = p true && p false

test_all_sound : (p : Bool → Bool) (b : Bool) → test_all p ≡ true → p b ≡ true
test_all_sound p true h = ground arith
test_all_sound p false h = ground arith

-- The data that decides the files' names.
abbrev shape : Bytes → Bool → Bool → Bool → Bool → Bool → Bool → ProjectData
shape layout sample auth team queue realtime i18n = record {
  name = [];
  mod_path = [];
  db = [];
  layout = layout;
  sample = sample;
  auth = auth;
  team = team;
  queue = queue;
  mailer = false;
  realtime = realtime;
  i18n = i18n;
  jwt_secret = [];
  helpers_version = [];
  local_replace = [];
}

abbrev user_module : Bytes → ModuleData
user_module layout = record {
  mod_path = [];
  layout = layout;
  type_name = codes "User";
  pkg = codes "user";
  plural = codes "users";
}

abbrev is_distinct : Bytes → Bool → Bool → Bool → Bool → Bool → Bool → Bool
is_distinct layout s a t q r i =
    distinct (dests (planned (shape layout s a t q r i) (user_module layout)))

abbrev test_realtime : Bytes → Bool → Bool → Bool → Bool → Bool → Bool
test_realtime layout s a t q r = test_all (is_distinct layout s a t q r)

abbrev test_queue : Bytes → Bool → Bool → Bool → Bool → Bool
test_queue layout s a t q = test_all (test_realtime layout s a t q)

abbrev test_team : Bytes → Bool → Bool → Bool → Bool
test_team layout s a t = test_all (test_queue layout s a t)

abbrev test_auth : Bytes → Bool → Bool → Bool
test_auth layout s a = test_all (test_team layout s a)

abbrev test_sample : Bytes → Bool → Bool
test_sample layout s = test_all (test_auth layout s)

abbrev test_layout : Bytes → Bool
test_layout layout = test_all (test_sample layout)

ddd_distinct : test_layout (codes "ddd") ≡ true
unfolding is_clean planned plan plan_auth plan_queue plan_realtime plan_i18n plan_module
ddd_distinct = refl

layered_distinct : test_layout (codes "layered") ≡ true
unfolding is_clean planned plan plan_auth plan_queue plan_realtime plan_i18n plan_module
layered_distinct = refl

test_layout_sound :
    (layout : Bytes) (s a t q r i : Bool)
    → test_layout layout ≡ true
    → is_distinct layout s a t q r i ≡ true
test_layout_sound layout s a t q r i h = test_all_sound (is_distinct layout s a t q r) i (
    test_all_sound (test_realtime layout s a t q) r (
      test_all_sound (test_queue layout s a t) q (
        test_all_sound (test_team layout s a) t
          (test_all_sound (test_auth layout s) a (test_all_sound (test_sample layout) s h)))))

dests-jobs : (c e : Context) (fs : List FileSpec) → dests (jobs c fs) ≡ dests (jobs e fs)
dests-jobs c e [] = refl
dests-jobs c e (f ∷ fs) = ap (λ ds. f.dest ∷ ds) (dests-jobs c e fs)

dests-chosen :
    (b : Bool) (c e : Context) (fs : List FileSpec)
    → dests (chosen b (jobs c fs)) ≡ dests (chosen b (jobs e fs))
dests-chosen true c e fs = dests-jobs c e fs
dests-chosen false c e fs = refl

abbrev shape_of : ProjectData → ProjectData
shape_of d = shape d.layout d.sample d.auth d.team d.queue d.realtime d.i18n

plan_module-shape :
    (md : ModuleData) (layout : Bytes)
    → md.layout ≡ layout
    → md.pkg ≡ codes "user"
    → plan_module md ≡ plan_module (user_module layout)
unfolding plan_module
plan_module-shape md layout same user = rw (same, user)

-- The names depend on the layout, on what is chosen and on the sample's name.
dests-planned :
    (d : ProjectData) (md : ModuleData)
    → md.layout ≡ d.layout
    → md.pkg ≡ codes "user"
    → dests (planned d md) ≡ dests (planned (shape_of d) (user_module d.layout))
unfolding planned
dests-planned d md same user =
    let c = project d in
    let e = project (shape_of d) in
    simp (dests-append) (
      rw
        (
          dests-jobs c e (plan d),
          plan_module-shape md d.layout same user,
          dests-chosen d.sample (feature md) (feature (user_module d.layout))
              (plan_module (user_module d.layout)),
          dests-chosen d.auth c e (plan_auth d),
          dests-chosen d.queue c e (plan_queue d),
          dests-chosen d.realtime c e (plan_realtime d),
          dests-chosen d.i18n c e (plan_i18n d),
        )
        (unfold plan plan_auth plan_queue plan_realtime plan_i18n in refl))

-- No two files of a project are one file, whatever was chosen.
pub distinct-planned :
    (d : ProjectData) (md : ModuleData)
    → (d.layout ≡ codes "ddd") ⊎ (d.layout ≡ codes "layered")
    → md.layout ≡ d.layout
    → md.pkg ≡ codes "user"
    → distinct (dests (planned d md)) ≡ true
distinct-planned d md (inl ddd) same user =
    ap distinct (dests-planned d md same user)
    ∙ test_layout_sound d.layout d.sample d.auth d.team d.queue d.realtime d.i18n
        (rw ddd ddd_distinct)
distinct-planned d md (inr layered) same user =
    ap distinct (dests-planned d md same user)
    ∙ test_layout_sound d.layout d.sample d.auth d.team d.queue d.realtime d.i18n
        (rw layered layered_distinct)
