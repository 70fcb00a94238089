-- ===== src/Flags/Examples.antt =====
-- Tests of the flags, with a hash by the length of the text.
use fibr.Prelude.{false, [], ◌∷◌}
use fibr.Prelude.Int.{pos}
use fibr.Flags.{Eval, Rule}

abbrev visitor : Eval
visitor = record { user_id = "u1"; groups = "staff" ∷ []; attrs = [] }

abbrev rule : Rule
rule = record { enabled = false; percentage = pos 20; users = []; groups = "beta" ∷ [] }
