-- ===== src/Ws/Rooms.antt =====
-- ws/hub.go: who is in which room.
pub mod Lifecycle
use fibr.Prelude.{
  ℕ, zero, suc, ◌+◌, ◌≤◌, ◌≡◌, refl, sym, ap, ◌∙◌, String, Bool, true, false, not, ◌&&◌, ◌||◌,
  Option, none, some, List, [], ◌∷◌, length, contains, remove, count, All, if◌then◌else◌, ◌==◌,
  string_cmp, nat_cmp, arith, eqb_refl, Comparable, Option-cases, inl, inr,
}
use fibr.Prelude.Assoc.{
  lookup, insert, delete, keys, lookup-insert, lookup-delete, count-keys-insert, count-keys-delete,
  count-keys-none,
}
use fibr.Ws.{
  Hub, Conn, new_hub, members, set_add, put_or_drop, drop_member, register, unregister, add_to_room,
  remove_from_room, join, leave, close, close_slow, close_conn, local_broadcast, local_to_room,
  enqueue_all, enqueue, update,
}

contains-remove :
    (c d : ℕ) (s : List ℕ) → contains (remove c s) d ≡ (if c == d then false else contains s d)
contains-remove c d [] = ground arith
contains-remove c d (x ∷ s) =
    ground
      (arith, nat_cmp.eqb_iff c d, nat_cmp.eqb_iff x c, nat_cmp.eqb_iff x d, contains-remove c d s)

contains-set_add : (c d : ℕ) (s : List ℕ) → contains (set_add s c) d ≡ (c == d || contains s d)
contains-set_add c d s = ground (arith, nat_cmp.eqb_iff c d)

length-set_add : (c : ℕ) (s : List ℕ) → 1 ≤ length (set_add s c)
length-set_add c [] = omega arith
length-set_add c (x ∷ s) = ground arith

-- The keys of the map of rooms are distinct, and no room is empty.
pub record Inv {B : Type 0} (h : Hub B) : Type 0 where
  pub distinct : (room : String) → count room (keys h.rooms) ≤ 1
  pub inhabited : All (λ p. 1 ≤ length p.1) h.rooms

abbrev pub member : {B : Type 0} → Hub B → String → ℕ → Bool
member h room c = contains (members (lookup room h.rooms)) c

count-keys-drop_member :
    (c : ℕ) (room : String) (rooms : List (String × List ℕ))
    → count room (keys (drop_member c rooms)) ≤ count room (keys rooms)
unfolding drop_member
count-keys-drop_member c room [] = omega arith
count-keys-drop_member c room ((r, s) ∷ rooms) = ground (arith, count-keys-drop_member c room rooms)

All-drop_member :
    (c : ℕ) (rooms : List (String × List ℕ))
    → All (λ p. 1 ≤ length p.1) rooms
    → All (λ p. 1 ≤ length p.1) (drop_member c rooms)
unfolding drop_member
All-drop_member c [] h = tt
All-drop_member c ((r, s) ∷ rooms) h = ground (arith, All-drop_member c rooms h.1)

lookup-keys :
    (room : String) (rooms : List (String × List ℕ))
    → count room (keys rooms) ≡ 0
    → lookup room rooms ≡ none
unfolding lookup
lookup-keys room [] h = refl
lookup-keys room ((r, s) ∷ rooms) h = ground (arith, lookup-keys room rooms)

contains-drop_member :
    (c : ℕ) (room : String) (d : ℕ) (rooms : List (String × List ℕ))
    → ((r : String) → count r (keys rooms) ≤ 1)
    → contains (members (lookup room (drop_member c rooms))) d
      ≡ (if c == d then false else contains (members (lookup room rooms)) d)
unfolding drop_member lookup
contains-drop_member c room d [] u = ground arith
contains-drop_member c room d ((r, s) ∷ rooms) u = ground (
  arith,
  u room,
  contains-remove c d s,
  count-keys-drop_member c room rooms,
  lookup-keys room (drop_member c rooms),
  contains-drop_member c room d rooms (λ t. ground (arith, u t)),
)

All-delete :
    (room : String) (rooms : List (String × List ℕ))
    → All (λ p. 1 ≤ length p.1) rooms
    → All (λ p. 1 ≤ length p.1) (delete room rooms)
unfolding delete
All-delete room [] h = tt
All-delete room ((r, s) ∷ rooms) h = ground (arith, All-delete room rooms h.1)

module _ {B : Type 0} where
  pub member-add_to_room :
      (room : String) (c : ℕ) (h : Hub B) (r : String) (d : ℕ)
      → member (add_to_room room c h) r d ≡ ((room == r && c == d) || member h r d)
  unfolding add_to_room
  member-add_to_room room c h r d = ground (
    arith,
    lookup-insert room r (set_add (members (lookup room h.rooms)) c) h.rooms,
    contains-set_add c d (members (lookup room h.rooms)),
    string_cmp.eqb_iff room r,
  )

  pub member-remove_from_room :
      (room : String) (c : ℕ) (h : Hub B) (r : String) (d : ℕ)
      → member (remove_from_room room c h) r d ≡ (not (room == r && c == d) && member h r d)
  unfolding remove_from_room
  member-remove_from_room room c h r d = elim (Option-cases (lookup room h.rooms)) [
    | inl p ↦ ground (arith, string_cmp.eqb_iff room r)
    | inr (s, p) ↦ ground (
      arith,
      lookup-insert room r (remove c s) h.rooms,
      lookup-delete room r h.rooms,
      contains-remove c d s,
      string_cmp.eqb_iff room r,
    )
  ]

  pub member-unregister :
      (c : ℕ) (h : Hub B) (r : String) (d : ℕ)
      → Inv h
      → member (unregister c h) r d ≡ (not (c == d) && member h r d)
  unfolding unregister
  member-unregister c h r d v = ground (arith, contains-drop_member c r d h.rooms v.distinct)

  pub add_to_room-Inv : (room : String) (c : ℕ) (h : Hub B) → Inv h → Inv (add_to_room room c h)
  unfolding add_to_room insert
  add_to_room-Inv room c h v = record {
    distinct = λ r. ground (
      arith,
      v.distinct r,
      count-keys-insert room r (set_add (members (lookup room h.rooms)) c) h.rooms,
    );
    inhabited =
        (length-set_add c (members (lookup room h.rooms)), All-delete room h.rooms v.inhabited);
  }

  pub remove_from_room-Inv :
      (room : String) (c : ℕ) (h : Hub B) → Inv h → Inv (remove_from_room room c h)
  unfolding remove_from_room insert
  remove_from_room-Inv room c h v = record {
    distinct = λ r. ground (arith, v.distinct r, count-keys-delete room r h.rooms);
    inhabited = ground (arith, All-delete room h.rooms v.inhabited);
  }

  pub unregister-Inv : (c : ℕ) (h : Hub B) → Inv h → Inv (unregister c h)
  unfolding unregister
  unregister-Inv c h v = record {
    distinct = λ r. ground (arith, v.distinct r, count-keys-drop_member c r h.rooms);
    inhabited = All-drop_member c h.rooms v.inhabited;
  }

  pub rooms-update : (c : ℕ) (f : Conn B → Conn B) (h : Hub B) → (update c f h).rooms ≡ h.rooms
  rooms-update c f h = ground arith

  -- The operations on connections and messages leave the rooms as they are.
  pub rooms-enqueue_all : (cs : List ℕ) (b : B) (h : Hub B) → (enqueue_all cs b h).rooms ≡ h.rooms
  unfolding enqueue_all
  rooms-enqueue_all [] b h = refl
  rooms-enqueue_all (c ∷ cs) b h =
      let f = λ (k : Conn B). (enqueue h.send_buf b k).0 in
      rooms-enqueue_all cs b (update c f h) ∙ rooms-update c f h
