-- ===== src/Inbox/Examples.antt =====
-- Tests of the inbox, with a counter as the data.
use fibr.Prelude.{ℕ, suc, Option, none, [], ◌∷◌, String}
use fibr.Inbox.{Database}

abbrev counts : ℕ → ℕ × Option String
counts n = (suc n, none)

abbrev start : Database ℕ
start = record { marked = []; stored = 0 }

abbrev once_done : Database ℕ
once_done = record { marked = "m1" ∷ []; stored = 1 }
