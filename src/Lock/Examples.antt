-- ===== src/Lock/Examples.antt =====
-- Tests of locks, with two owners.
use fibr.Prelude.{ℕ, Bool, true, ◌≤◌, ◌<◌, ◌≡◌, refl, some, List, [], ◌∷◌, arith}
use fibr.Lock.Held.{Step, tries, releases, extends, run, set_nx-owned, holder-run}
use fibr.Lock.Server.{Table, server, server-Lawful}

-- The key "k" is held by "a" until 1000.
abbrev unlocked : Table
unlocked = (server.del "k" []).0

abbrev locked : Table
locked = (server.set_nx "k" "a" 1000 0 unlocked).0

abbrev others : List (ℕ × Step)
others = (10, tries "b" 500) ∷ (20, releases "b") ∷ (20, extends "c" 5000000) ∷ []

owned : (u : ℕ) → 0 ≤ u → u < 1000 → server-Lawful.holder locked u "k" ≡ some "a"
unfolding fibr.Prelude.Assoc.lookup fibr.Prelude.Assoc.delete
owned u h l =
    set_nx-owned server server-Lawful "k" "a" 1000 0 u unlocked
      (server-Lawful.del-holder "k" [] 0 "k") refl h (omega arith)

holder-run_example :
    server-Lawful.holder (run server server-Lawful "k" "a" others locked) 999 "k" ≡ some "a"
holder-run_example =
    holder-run server server-Lawful "k" "a" 0 1000 999 others locked owned
      (
        omega arith,
        omega arith,
        refl,
        (omega arith, omega arith, refl, (omega arith, omega arith, refl, tt)),
      )
      (omega arith) (omega arith)

abbrev worker : Table → Table × Bool
worker s = (s, true)

abbrev wipes : Table → Table × Bool
wipes s = ([], true)
