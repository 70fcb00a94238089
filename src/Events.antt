-- ===== src/Events.antt =====
-- events/events.go: the event bus. A handler acts on the world that is a parameter; the events of a
-- type are kept apart by the name of the type, and an event is its text.
mod Examples
use fibr.Prelude.{
  ℕ, ◌≡◌, refl, sym, ap, ◌∙◌, String, Bool, true, false, Option, none, some, List, [], ◌∷◌, ◌++◌,
  if◌then◌else◌, ◌==◌, string_cmp, eqb_refl, Bool-cases, inl, inr, arith, append_nil,
}
use fibr.Prelude.Assoc.{lookup, insert, lookup-insert}

abbrev pub EventHandler : Type 0 → Type 0
EventHandler W = String → W → W × Option ℕ

pub record Bus (W : Type 0) : Type 0 where
  pub handlers : List (String × List (EventHandler W))
  pub async : Bool

pub data BusOption : Type 0 where
  with_async : BusOption

abbrev pub note : Option ℕ → List ℕ → List ℕ
note none errs = errs
note (some e) errs = e ∷ errs

note-append : (e : Option ℕ) (xs ys : List ℕ) → note e (xs ++ ys) ≡ note e xs ++ ys
note-append none xs ys = refl
note-append (some e) xs ys = refl

module _ {W : Type 0} where
  unfoldable pub new : List BusOption → Bus W
  new [] = record { handlers = []; async = false }
  new (with_async ∷ opts) = record (new opts) { async = true }

  abbrev pub or_empty : Option (List (EventHandler W)) → List (EventHandler W)
  or_empty none = []
  or_empty (some hs) = hs

  unfoldable pub handlers_of : Bus W → String → List (EventHandler W)
  handlers_of b key = or_empty (lookup key b.handlers)

  unfoldable pub subscribe : String → EventHandler W → Bus W → Bus W
  unfolding handlers_of
  subscribe key handler b = record b {
    handlers = insert key (handlers_of b key ++ handler ∷ []) b.handlers;
  }

  -- The loop of the synchronous mode.
  unfoldable pub deliver : List (EventHandler W) → String → W → W × List ℕ
  deliver [] evt w = (w, [])
  deliver (fn ∷ fns) evt w =
      let (w1, e) = fn evt w in let (w2, errs) = deliver fns evt w1 in (w2, note e errs)

  -- `Publish`, with the goroutines that the asynchronous mode starts.
  unfoldable pub publish : Bus W → String → String → W → W × List ℕ × List (EventHandler W)
  publish b key evt w =
      if b.async
      then (w, [], handlers_of b key)
      else let (w', errs) = deliver (handlers_of b key) evt w in (w', errs, [])

  handlers_of-subscribe :
      (key other : String) (handler : EventHandler W) (b : Bus W)
      → handlers_of (subscribe key handler b) other
        ≡ (if key == other then handlers_of b key ++ handler ∷ [] else handlers_of b other)
  unfolding handlers_of subscribe
  handlers_of-subscribe key other handler b =
      ap or_empty (lookup-insert key other (handlers_of b key ++ handler ∷ []) b.handlers)
      ∙ elim (Bool-cases (key == other)) [ inl same ↦ rw same refl | inr apart ↦ rw apart refl ]

  deliver-append :
      (fns : List (EventHandler W)) (handler : EventHandler W) (evt : String) (w : W)
      → deliver (fns ++ handler ∷ []) evt w ≡ (
        (handler evt (deliver fns evt w).0).0,
        (deliver fns evt w).1 ++ note (handler evt (deliver fns evt w).0).1 [],
      )
  unfolding deliver
  deliver-append [] handler evt w = refl
  deliver-append (fn ∷ fns) handler evt w =
      let w1 = (fn evt w).0 in
      let after = deliver fns evt w1 in
      ap (λ r. (r.0, note (fn evt w).1 r.1)) (deliver-append fns handler evt w1)
      ∙ ap (λ l. ((handler evt after.0).0, l))
          (note-append (fn evt w).1 after.1 (note (handler evt after.0).1 []))

  abbrev in_turn : List (EventHandler W) → String → W → W × List ℕ × List (EventHandler W)
  in_turn fns evt w = let (w', errs) = deliver fns evt w in (w', errs, [])

  publish_sync :
      (b : Bus W) (key evt : String) (w : W)
      → b.async ≡ false
      → publish b key evt w ≡ in_turn (handlers_of b key) evt w
  unfolding publish
  publish_sync b key evt w sync = ground (arith, sync)

  async-subscribe :
      (key : String) (handler : EventHandler W) (b : Bus W)
      → (subscribe key handler b).async ≡ b.async
  unfolding subscribe
  async-subscribe key handler b = refl

  -- On a bus that is not asynchronous, a handler that is subscribed runs for each event of its type
  -- after those before it, also if they fail, with its error behind theirs; the events of another type are
  -- delivered as before.
  publish-subscribe :
      (key other evt : String) (handler : EventHandler W) (b : Bus W) (w : W)
      → b.async ≡ false
      → publish (subscribe key handler b) other evt w ≡ (
          if key == other
          then (
            (handler evt (publish b key evt w).0).0,
            (publish b key evt w).1 ++ note (handler evt (publish b key evt w).0).1 [],
            [],
          )
          else publish b other evt w)
  publish-subscribe key other evt handler b w sync =
      let before = publish_sync b key evt w sync in
      publish_sync (subscribe key handler b) other evt w (async-subscribe key handler b ∙ sync)
      ∙ ap (λ fns. in_turn fns evt w) (handlers_of-subscribe key other handler b)
      ∙ elim (Bool-cases (key == other)) [
        | inl same ↦ rw same (
            ap (λ r. (r.0, r.1, [])) (deliver-append (handlers_of b key) handler evt w)
            ∙ sym (ap (λ r. ((handler evt r.0).0, r.1 ++ note (handler evt r.0).1 [], [])) before))
        | inr apart ↦ rw apart (sym (publish_sync b other evt w sync))
      ]
