-- ===== src/Events/Examples.antt =====
-- events/events.go: a run of the code.
use fibr.Prelude.{ℕ, ◌+◌, ◌≡◌, refl, String, some, [], ◌∷◌, string_cmp, true, Bool}
use fibr.Prelude.Assoc.{lookup}
use fibr.Events.{Bus, EventHandler, BusOption, with_async, new, subscribe, publish, note}

abbrev placed : String
placed = "Placed"

abbrev adds : ℕ → EventHandler ℕ
adds n evt w = (w + n, some n)

abbrev bus : Bus ℕ
bus = record { handlers = ("Placed", adds 1 ∷ []) ∷ []; async = Bool.false }

-- In the asynchronous mode nothing has run when the call returns.
deferred : publish (record bus { async = true }) "Placed" "o1" 10 ≡ (10, [], adds 1 ∷ [])
unfolding publish fibr.Events.handlers_of lookup
deferred = refl

empty_bus : publish {W = ℕ} (new (with_async ∷ [])) "Placed" "o1" 10 ≡ (10, [], [])
unfolding publish new fibr.Events.handlers_of lookup
empty_bus = refl
