-- ===== src/Ws/Examples.antt =====
-- Tests of the hub, with two connections.
use fibr.Prelude.{ℕ, ◌≡◌, refl, String, Bool, true, false, List, [], ◌∷◌, string_cmp, nat_cmp}
use fibr.Ws.{Hub, new_hub, join, handle}
use fibr.Ws.Rooms.{Inv, member}
use fibr.Ws.Rooms.Lifecycle.{
  Event, connects, joins, leaves, disconnects, to_room, run, joined, new_hub-Inv, member-run,
  run-Inv, handle_rejected,
}

abbrev hub : Hub String
hub = new_hub 16

abbrev history : List (Event String)
history =
    connects 1
    ∷ connects 2
    ∷ joins 1 "lobby"
    ∷ joins 2 "lobby"
    ∷ to_room "lobby" "hello"
    ∷ leaves 2 "lobby"
    ∷ disconnects 1
    ∷ []

member-run_example : member (run hub history) "lobby" 1 ≡ joined (member hub) history "lobby" 1
member-run_example = member-run hub history "lobby" 1 (new_hub-Inv 16)

-- The connection 1 has left its room by disconnecting.
left : joined (member hub) history "lobby" 1 ≡ false
left = refl

run-Inv_example : Inv (run hub history)
run-Inv_example = run-Inv hub history (new_hub-Inv 16)

abbrev accepting : ℕ → Hub String → Hub String × Bool
accepting c h = (run h (joins c "lobby" ∷ []), true)

abbrev chat : ℕ → Hub String → Hub String
chat c h = run h (to_room "lobby" "hello" ∷ [])

abbrev quiet : ℕ → Hub String → Hub String
quiet c h = h

handle_rejected_example :
    member (handle (λ d k. (join d "lobby" k, false)) chat quiet 1 hub) "lobby" 1 ≡ true
handle_rejected_example = handle_rejected chat quiet "lobby" 1 hub
