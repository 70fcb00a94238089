-- ===== src/Ws.antt =====
-- ws/hub.go, ws/conn.go: the connections of a hub and their rooms, without the backplane. Encoding
-- a message is a parameter. A connection is its number, and its state stands in a table.
pub mod Rooms
mod Examples
use fibr.Prelude.{
  ℕ, zero, ◌+◌, ◌≡◌, String, Bool, true, false, not, Option, none, some, List, [], ◌∷◌, ◌++◌,
  length, contains, remove, ltb, leb, if◌then◌else◌, ◌==◌, string_cmp, nat_cmp,
}
use fibr.Prelude.Assoc.{lookup, insert, delete}

-- The messages that wait in `send`, and whether `Close` has run. A slow client is closed later, by a
-- goroutine of its own, which `closing` records.
pub record Conn (B : Type 0) : Type 0 where
  pub send_queue : List B
  pub rooms : List String
  pub closed : Bool
  pub closing : Bool

pub record Hub (B : Type 0) : Type 0 where
  pub send_buf : ℕ
  pub conns : List ℕ
  pub rooms : List (String × List ℕ)
  pub table : List (ℕ × Conn B)

pub data SendError : Type 0 where
  sent err_closed err_slow_client : SendError

abbrev pub new_hub : {B : Type 0} → ℕ → Hub B
new_hub n = record { send_buf = n; conns = []; rooms = []; table = [] }

abbrev pub set_add : List ℕ → ℕ → List ℕ
set_add s c = if contains s c then s else c ∷ s

abbrev pub members : Option (List ℕ) → List ℕ
members none = []
members (some s) = s

-- A set that is empty is deleted from the map.
abbrev put_or_drop : String → List ℕ → List (String × List ℕ) → List (String × List ℕ)
put_or_drop room [] rooms = delete room rooms
put_or_drop room (c ∷ s) rooms = insert room (c ∷ s) rooms

-- The loop of `unregister` over the rooms.
pub drop_member : ℕ → List (String × List ℕ) → List (String × List ℕ)
drop_member c [] = []
drop_member c ((room, s) ∷ rooms) =
    let rest = drop_member c rooms in
    elim (remove c s) [ [] ↦ rest | d ∷ s' ↦ (room, d ∷ s') ∷ rest ]

module _ {B : Type 0} where
  pub register : ℕ → Hub B → Hub B
  register c h = record h { conns = set_add h.conns c }

  pub unregister : ℕ → Hub B → Hub B
  unregister c h = record h { conns = remove c h.conns; rooms = drop_member c h.rooms }

  pub add_to_room : String → ℕ → Hub B → Hub B
  add_to_room room c h = record h {
    rooms = insert room (set_add (members (lookup room h.rooms)) c) h.rooms;
  }

  pub remove_from_room : String → ℕ → Hub B → Hub B
  remove_from_room room c h = elim (lookup room h.rooms) [
    | none ↦ h
    | some s ↦ record h { rooms = put_or_drop room (remove c s) h.rooms }
  ]

  -- A change of the state of one connection.
  abbrev pub update : ℕ → (Conn B → Conn B) → Hub B → Hub B
  update c f h = elim (lookup c h.table) [
    | none ↦ h
    | some k ↦ record h { table = insert c (f k) h.table }
  ]

  -- The connection's own set of rooms.
  abbrev pub note_join : String → Conn B → Conn B
  note_join room k = record k { rooms = if contains k.rooms room then k.rooms else room ∷ k.rooms }

  abbrev pub note_leave : String → Conn B → Conn B
  note_leave room k = record k { rooms = remove room k.rooms }

  pub join : ℕ → String → Hub B → Hub B
  unfolding add_to_room
  join c room h = add_to_room room c (update c (note_join room) h)

  pub leave : ℕ → String → Hub B → Hub B
  unfolding remove_from_room
  leave c room h = remove_from_room room c (update c (note_leave room) h)

  -- `enqueue`, on the state of the connection.
  pub enqueue : ℕ → B → Conn B → Conn B × SendError
  enqueue buf b k =
      if k.closed
      then (k, err_closed)
      else if ltb (length k.send_queue) buf
      then (record k { send_queue = k.send_queue ++ b ∷ [] }, sent)
      else (record k { closing = true }, err_slow_client)

  -- `Close`: once, it closes the channel, which keeps what waits in it.
  abbrev pub close_conn : Conn B → Conn B
  close_conn k = if k.closed then k else record k { closed = true }

  pub close : ℕ → Hub B → Hub B
  close c h = update c close_conn h

  abbrev pub close_closing : Conn B → Conn B
  close_closing k = if k.closing then close_conn k else k

  -- The goroutine that a slow client left.
  pub close_slow : ℕ → Hub B → Hub B
  close_slow c h = update c close_closing h

  pub enqueue_all : List ℕ → B → Hub B → Hub B
  unfolding enqueue
  enqueue_all [] b h = h
  enqueue_all (c ∷ cs) b h = enqueue_all cs b (update c (λ k. (enqueue h.send_buf b k).0) h)

  pub close_all : List ℕ → Hub B → Hub B
  unfolding close
  close_all [] h = h
  close_all (c ∷ cs) h = close_all cs (close c h)

  -- `Close` of the hub.
  pub close_hub : Hub B → Hub B
  unfolding close_all
  close_hub h = close_all h.conns h

  pub count_conns : Hub B → ℕ
  count_conns h = length h.conns

  module _ {T : Type 0} (marshal : T → Option B) where
    pub local_broadcast : T → Hub B → Hub B
    unfolding enqueue_all
    local_broadcast msg h = elim (marshal msg) [ none ↦ h | some b ↦ enqueue_all h.conns b h ]

    pub local_to_room : String → T → Hub B → Hub B
    unfolding enqueue_all
    local_to_room room msg h = elim (marshal msg) [
      | none ↦ h
      | some b ↦ enqueue_all (members (lookup room h.rooms)) b h
    ]

  -- The hub with a new connection, which is in its table only.
  abbrev pub opened : ℕ → Hub B → Hub B
  opened c h =
      let fresh : Conn B = record {
        send_queue = [];
        rooms = [];
        closed = false;
        closing = false;
      } in
      record h { table = insert c fresh h.table }

  -- The life of a connection: what the callback on connecting does and whether it accepts, and what
  -- happens while the connection reads. The rejected connection returns at once.
  pub handle :
      (ℕ → Hub B → Hub B × Bool) → (ℕ → Hub B → Hub B) → (ℕ → Hub B → Hub B) → ℕ → Hub B → Hub B
  unfolding register unregister close
  handle on_connect session on_disconnect c h =
      let (h', accepted) = on_connect c (opened c h) in
      if accepted then close c (unregister c (on_disconnect c (session c (register c h')))) else h'
