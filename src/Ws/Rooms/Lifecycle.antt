-- ===== src/Ws/Rooms/Lifecycle.antt =====
-- ws/hub.go, ws/conn.go: histories of a hub, and the life of a connection.
use fibr.Prelude.{
  ℕ, ◌≤◌, ◌≡◌, refl, sym, ap, ◌∙◌, String, Bool, true, false, not, ◌&&◌, ◌||◌, some, List, [], ◌∷◌,
  length, contains, All, ◌==◌, string_cmp, nat_cmp, arith, eqb_refl, subst,
}
use fibr.Prelude.Assoc.{lookup}
use fibr.Ws.{
  Hub, new_hub, members, set_add, register, unregister, join, leave, close, close_slow, close_conn,
  local_broadcast, local_to_room, enqueue_all, update, handle, note_join, note_leave, close_closing,
  opened,
}
use fibr.Ws.Rooms.{
  contains-remove, Inv, member, member-add_to_room, member-remove_from_room, member-unregister,
  add_to_room-Inv, remove_from_room-Inv, unregister-Inv, rooms-enqueue_all, rooms-update,
}

-- What happens to a hub: a connection is accepted, joins or leaves a room, disconnects, is closed (by
-- itself or as a slow client), or a message goes to all or to a room.
pub data Event (B : Type 0) : Type 0 where
  connects disconnects closes slow : ℕ → Event B
  joins leaves : ℕ → String → Event B
  to_all : B → Event B
  to_room : String → B → Event B

module _ {B : Type 0} where
  abbrev step : Hub B → Event B → Hub B
  step h (connects c) = register c h
  step h (disconnects c) = unregister c h
  step h (closes c) = close c h
  step h (slow c) = close_slow c h
  step h (joins c room) = join c room h
  step h (leaves c room) = leave c room h
  step h (to_all b) = local_broadcast some b h
  step h (to_room room b) = local_to_room some room b h

  abbrev pub run : Hub B → List (Event B) → Hub B
  run h [] = h
  run h (e ∷ es) = run (step h e) es

  -- The same by the history alone: who is in which room, where `f` was the answer before.
  abbrev pub from : (String → ℕ → Bool) → Event B → String → ℕ → Bool
  from f (joins c room) r d = (room == r && c == d) || f r d
  from f (leaves c room) r d = not (room == r && c == d) && f r d
  from f (disconnects c) r d = not (c == d) && f r d
  from f e r d = f r d

  abbrev pub joined : (String → ℕ → Bool) → List (Event B) → String → ℕ → Bool
  joined f [] r d = f r d
  joined f (e ∷ es) r d = joined (from f e) es r d

  -- The invariant speaks of the rooms only.
  Inv-rooms : (h k : Hub B) → k.rooms ≡ h.rooms → Inv h → Inv k
  Inv-rooms h k e v = record {
    distinct = λ r. ground (arith, v.distinct r);
    inhabited = subst (λ m. All (λ p. 1 ≤ length p.1) m) (sym e) v.inhabited;
  }

  pub new_hub-Inv : (n : ℕ) → Inv (new_hub {B = B} n)
  new_hub-Inv n = record { distinct = λ room. omega arith; inhabited = tt }

  step-Inv : (h : Hub B) (e : Event B) → Inv h → Inv (step h e)
  unfolding register join leave close close_slow local_broadcast local_to_room
  step-Inv h (connects c) v = Inv-rooms h (register c h) refl v
  step-Inv h (disconnects c) v = unregister-Inv c h v
  step-Inv h (closes c) v = Inv-rooms h (close c h) (rooms-update c close_conn h) v
  step-Inv h (slow c) v = Inv-rooms h (close_slow c h) (rooms-update c close_closing h) v
  step-Inv h (joins c room) v = add_to_room-Inv room c _ (Inv-rooms h _ (rooms-update c _ h) v)
  step-Inv h (leaves c room) v =
      remove_from_room-Inv room c _ (Inv-rooms h _ (rooms-update c _ h) v)
  step-Inv h (to_all b) v = Inv-rooms h _ (rooms-enqueue_all h.conns b h) v
  step-Inv h (to_room room b) v =
      Inv-rooms h _ (rooms-enqueue_all (members (lookup room h.rooms)) b h) v

  member-rooms :
      (h k : Hub B) (r : String) (d : ℕ) → k.rooms ≡ h.rooms → member k r d ≡ member h r d
  member-rooms h k r d e = ap (λ m. contains (members (lookup r m)) d) e

  member-step :
      (h : Hub B) (e : Event B) (r : String) (d : ℕ)
      → Inv h
      → member (step h e) r d ≡ from (member h) e r d
  unfolding register join leave close close_slow local_broadcast local_to_room
  member-step h (connects c) r d v = refl
  member-step h (disconnects c) r d v = member-unregister c h r d v
  member-step h (closes c) r d v = member-rooms h (close c h) r d (rooms-update c close_conn h)
  member-step h (slow c) r d v =
      member-rooms h (close_slow c h) r d (rooms-update c close_closing h)
  member-step h (joins c room) r d v =
      member-add_to_room room c (update c (note_join room) h) r d
      ∙ ap (λ b. (room == r && c == d) || b)
          (member-rooms h (update c (note_join room) h) r d (rooms-update c (note_join room) h))
  member-step h (leaves c room) r d v =
      member-remove_from_room room c (update c (note_leave room) h) r d
      ∙ ap (λ b. not (room == r && c == d) && b)
          (member-rooms h (update c (note_leave room) h) r d (rooms-update c (note_leave room) h))
  member-step h (to_all b) r d v =
      member-rooms h (enqueue_all h.conns b h) r d (rooms-enqueue_all h.conns b h)
  member-step h (to_room room b) r d v =
      let cs = members (lookup room h.rooms) in
      member-rooms h (enqueue_all cs b h) r d (rooms-enqueue_all cs b h)

  from-same :
      (f g : String → ℕ → Bool) (e : Event B)
      → ((s : String) (c : ℕ) → f s c ≡ g s c)
      → (s : String) (c : ℕ) → from f e s c ≡ from g e s c
  from-same f g (joins c room) h s d = ap (λ b. (room == s && c == d) || b) (h s d)
  from-same f g (leaves c room) h s d = ap (λ b. not (room == s && c == d) && b) (h s d)
  from-same f g (disconnects c) h s d = ap (λ b. not (c == d) && b) (h s d)
  from-same f g e h s d = h s d

  joined-same :
      (f g : String → ℕ → Bool) (es : List (Event B)) (r : String) (d : ℕ)
      → ((s : String) (c : ℕ) → f s c ≡ g s c)
      → joined f es r d ≡ joined g es r d
  joined-same f g [] r d h = h r d
  joined-same f g (e ∷ es) r d h = joined-same (from f e) (from g e) es r d (from-same f g e h)

  -- After any history of a hub, its map of rooms says of each connection and room what the history
  -- says: it joined the room, and has not left it or disconnected since.
  pub member-run :
      (h : Hub B) (es : List (Event B)) (r : String) (d : ℕ)
      → Inv h
      → member (run h es) r d ≡ joined (member h) es r d
  member-run h [] r d v = refl
  member-run h (e ∷ es) r d v =
      member-run (step h e) es r d (step-Inv h e v)
      ∙ joined-same (member (step h e)) (from (member h) e) es r d (λ s c. member-step h e s c v)

  -- In every history the rooms of a hub have distinct names and no room is empty.
  pub run-Inv : (h : Hub B) (es : List (Event B)) → Inv h → Inv (run h es)
  run-Inv h [] v = v
  run-Inv h (e ∷ es) v = run-Inv (step h e) es (step-Inv h e v)

  gone : (c : ℕ) (h : Hub B) → contains (update c close_conn (unregister c h)).conns c ≡ false
  unfolding unregister
  gone c h = ground (arith, contains-remove c c h.conns, eqb_refl c)

  register-Inv : (c : ℕ) (h : Hub B) → Inv h → Inv (register c h)
  unfolding register
  register-Inv c h v = Inv-rooms h (record h { conns = set_add h.conns c }) refl v

  cleared :
      (c : ℕ) (h : Hub B)
      → Inv h
      → ((r : String) → member (close c (unregister c h)) r c ≡ false)
        × (contains (close c (unregister c h)).conns c ≡ false)
  unfolding close
  cleared c h v =
      let k = unregister c h in
      (
        λ r.
            member-rooms k (update c close_conn k) r c (rooms-update c close_conn k)
            ∙ member-unregister c h r c v
            ∙ ground (arith, eqb_refl c),
        gone c h,
      )

  -- When `Handle` returns for a connection that was accepted, the connection is in no room and not
  -- among the hub's connections, where the callbacks keep the hub's rooms well formed.
  handle_accepted :
      (on_connect : ℕ → Hub B → Hub B × Bool) (session on_disconnect : ℕ → Hub B → Hub B) (c : ℕ)
      (h : Hub B)
      → Inv h
      → ((k : Hub B) → Inv k → Inv (on_connect c k).0)
      → ((k : Hub B) → Inv k → Inv (session c k))
      → ((k : Hub B) → Inv k → Inv (on_disconnect c k))
      → (on_connect c (opened c h)).1 ≡ true
      → ((r : String) → member (handle on_connect session on_disconnect c h) r c ≡ false)
        × (contains (handle on_connect session on_disconnect c h).conns c ≡ false)
  unfolding handle
  handle_accepted on_connect session on_disconnect c h v kc ks kd accepted =
      let h' = (on_connect c (opened c h)).0 in
      let last = on_disconnect c (session c (register c h')) in
      let inv = kd (session c (register c h')) (
        ks (register c h')
          (register-Inv c h' (kc (opened c h) (Inv-rooms h (opened c h) refl v)))) in
      rw accepted (cleared c last inv)

  -- A connection that joins a room while it connects and is then rejected stays in the room.
  pub handle_rejected :
      (session on_disconnect : ℕ → Hub B → Hub B) (room : String) (c : ℕ) (h : Hub B)
      → member (handle (λ d k. (join d room k, false)) session on_disconnect c h) room c ≡ true
  unfolding handle join
  handle_rejected session on_disconnect room c h =
      member-add_to_room room c (update c (note_join room) (opened c h)) room c
      ∙ ground (arith, eqb_refl room, eqb_refl c)
