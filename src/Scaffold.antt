-- ===== src/Scaffold.antt =====
-- cmd/fibr/options.go: the options of the project generator. What the user types is the list of the
-- lines, and the prompts that are printed are left out.
pub mod Valid
pub mod Files
pub mod Memory
pub mod Plan
pub mod Render
pub mod Generate
pub mod AddModule
mod Examples
use fibr.Prelude.{
  ℕ, ◌≡◌, String, Bool, true, false, not, ◌||◌, ◌&&◌, Option, none, some, List, [], ◌∷◌, contains,
  if◌then◌else◌, ◌==◌, nat_cmp,
}
use fibr.Prelude.Bytes.{Bytes, codes, bytes_cmp, trim_space, to_lower, after}

pub record Options : Type 0 where
  pub name : Bytes
  pub mod_path : Bytes
  pub db : Bytes
  pub layout : Bytes
  pub sample : Bool
  pub auth : Bool
  pub team : Bool
  pub queue : Bool
  pub mailer : Bool
  pub realtime : Bool
  pub i18n : Bool
  pub dir : Bytes
  pub no_git : Bool
  pub no_tidy : Bool
  pub helpers_version : Bytes
  pub local : Bytes

pub data Error : Type 0 where
  name_required name_not_simple module_required bad_db bad_layout : Error

abbrev pub is_empty : Bytes → Bool
is_empty [] = true
is_empty (c ∷ s) = false

-- `strings.ContainsAny(o.Name, "/\\") || strings.Contains(o.Name, "..")`
abbrev pub has_dots : Option Bytes → Bool
has_dots none = false
has_dots (some s) = true

abbrev pub not_simple : Bytes → Bool
not_simple name = contains name 47 || contains name 92 || has_dots (after (46 ∷ 46 ∷ []) name)

abbrev pub with_auth : Options → Options
with_auth o = if o.team then record o { auth = true } else o

abbrev pub with_dir : Options → Options
with_dir o = if is_empty o.dir then record o { dir = o.name } else o

-- The checks of `Validate` in their order.
abbrev pub first_error : Options → Option Error
first_error o =
    if is_empty o.name
    then some name_required
    else if not_simple o.name
    then some name_not_simple
    else if is_empty o.mod_path
    then some module_required
    else if not (o.db == codes "postgres") && not (o.db == codes "sqlite")
    then some bad_db
    else if not (o.layout == codes "ddd") && not (o.layout == codes "layered")
    then some bad_layout
    else none

abbrev pub finish : Options → Option Error → Options × Option Error
finish o none = (with_dir o, none)
finish o (some e) = (o, some e)

unfoldable pub validate : Options → Options × Option Error
validate o = let o' = with_auth o in finish o' (first_error o')

abbrev pub next_line : List Bytes → Bytes × List Bytes
next_line [] = ([], [])
next_line (line ∷ lines) = (line, lines)

unfoldable pub prompt : Bytes → List Bytes → Bytes × List Bytes
prompt def input =
    let (line, rest) = next_line input in
    let answer = trim_space line in (if is_empty answer then def else answer, rest)

unfoldable pub yes_no : List Bytes → Bool × List Bytes
yes_no input =
    let (line, rest) = next_line input in
    let answer = to_lower (trim_space line) in (answer == codes "y" || answer == codes "yes", rest)

-- One question: what it asks for, if it is asked, and where the answer goes.
abbrev pub ask_text :
    Bool → Bytes → (Bytes → Options → Options) → Options × List Bytes → Options × List Bytes
ask_text false def put (o, input) = (o, input)
ask_text true def put (o, input) = let (answer, rest) = prompt def input in (put answer o, rest)

abbrev pub ask_bool :
    Bool → (Bool → Options → Options) → Options × List Bytes → Options × List Bytes
ask_bool false put (o, input) = (o, input)
ask_bool true put (o, input) = let (answer, rest) = yes_no input in (put answer o, rest)

module _ (changed : String → Bool) where
  abbrev pub ask_name : Options × List Bytes → Options × List Bytes
  ask_name (o, input) = ask_text (is_empty o.name) [] (λ s p. record p { name = s }) (o, input)

  abbrev pub ask_module : Options × List Bytes → Options × List Bytes
  ask_module (o, input) =
      ask_text (is_empty o.mod_path) [] (λ s p. record p { mod_path = s }) (o, input)

  abbrev pub ask_db : Options × List Bytes → Options × List Bytes
  ask_db (o, input) = ask_text (not (changed "db")) o.db (λ s p. record p { db = s }) (o, input)

  abbrev pub ask_layout : Options × List Bytes → Options × List Bytes
  ask_layout (o, input) =
      ask_text (not (changed "layout")) o.layout (λ s p. record p { layout = s }) (o, input)

  abbrev pub ask_sample : Options × List Bytes → Options × List Bytes
  ask_sample (o, input) =
      ask_bool (not (changed "sample") && not o.sample) (λ b p. record p { sample = b }) (o, input)

  abbrev pub ask_auth : Options × List Bytes → Options × List Bytes
  ask_auth (o, input) =
      ask_bool (not (changed "auth") && not o.auth) (λ b p. record p { auth = b }) (o, input)

  abbrev pub ask_team : Options × List Bytes → Options × List Bytes
  ask_team (o, input) =
      ask_bool (o.auth && not (changed "auth-with-team") && not o.team)
        (λ b p. record p { team = b }) (o, input)

  abbrev pub ask_queue : Options × List Bytes → Options × List Bytes
  ask_queue (o, input) =
      ask_bool (not (changed "queue") && not o.queue) (λ b p. record p { queue = b }) (o, input)

  abbrev pub ask_mailer : Options × List Bytes → Options × List Bytes
  ask_mailer (o, input) =
      ask_bool (not (changed "mailer") && not o.mailer) (λ b p. record p { mailer = b }) (o, input)

  -- The questions of an interactive run, in their order.
  unfoldable pub interview : Options → List Bytes → Options
  interview o input =
      let r = ask_layout (ask_db (ask_module (ask_name (o, input)))) in
      (ask_mailer (ask_queue (ask_team (ask_auth (ask_sample r))))).0

  unfoldable pub resolve : Bool → List Bytes → Options → Options × Option Error
  unfolding validate
  resolve interactive input o = validate (if interactive then interview o input else o)
