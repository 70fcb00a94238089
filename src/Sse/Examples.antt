-- ===== src/Sse/Examples.antt =====
-- sse: runs of the code.
use fibr.Prelude.{◌≡◌, refl, true, Option, none, [], ◌∷◌, ◌++◌}
use fibr.Prelude.Int.{pos}
use fibr.Prelude.Bytes.{Bytes, codes, split}
use fibr.Sse.{Writer, Event, text, head_lines, data_lines, encode, write_lines, event}
use fibr.Sse.Receiver.{new_client, receive}
use fibr.Sse.Delivery.{Keeps, event-receive}

abbrev buffer : Writer
buffer = record { State = Bytes; write = λ s b. (s ++ b, true); flush = λ s. (s, true) }

abbrev view : Bytes → Bytes
view s = s

buffer-Keeps : Keeps buffer view
buffer-Keeps = record { view-write = λ s b h. refl; view-flush = λ s h. refl }

abbrev no_value : Bytes → Option Bytes
no_value b = none

abbrev news : Event Bytes
news = record {
  id = codes "7";
  name = codes "news";
  content = text (codes "a: 1" ++ 10 ∷ codes "b");
  retry = pos 30;
}

event-receive_example :
    (added : Bytes) × ((event no_value buffer news (codes ": hi")).0 ≡ codes ": hi" ++ added)
    × (receive new_client added
        ≡ record { id = codes "7"; name = codes "news"; payload = codes "a: 1" ++ 10 ∷ codes "b" }
          ∷ [])
unfolding event write_lines head_lines data_lines encode split
event-receive_example =
    event-receive no_value buffer view buffer-Keeps news (codes "a: 1" ++ 10 ∷ codes "b")
      (codes ": hi") (refl, tt) (refl, tt) (refl, (refl, (refl, (refl, tt))))
      (refl, (refl, (refl, (refl, (refl, (refl, tt)))))) refl refl
