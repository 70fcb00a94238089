-- ===== src/Outbox/Laws.antt =====
-- outbox/outbox.go, outbox/relay.go: what the relay relies on of the database and the broker.
use fibr.Prelude.{
  ℕ, ◌<◌, ◌≡◌, ◌⊎◌, inr, String, Bool, true, false, Option, none, some, List, [], ◌∷◌, ◌++◌,
  if◌then◌else◌, ◌==◌, nat_cmp, take, All, In,
}
use fibr.Outbox.{Event, Port}

abbrev pub Message : Type 0
Message = String × String

abbrev pub is_pending : Event → Bool
is_pending e = elim e.published_at [ none ↦ true | some t ↦ false ]

-- `WHERE published_at IS NULL`
abbrev pub pending : List Event → List Event
pending [] = []
pending (e ∷ events) = if is_pending e then e ∷ pending events else pending events

-- `SET published_at = t` at a primary key
abbrev pub mark : ℕ → ℕ → List Event → List Event
mark i t [] = []
mark i t (e ∷ events) =
    (if e.id == i then record e { published_at = some t } else e) ∷ mark i t events

abbrev pub on_error : {A : Type 0} → Option ℕ → A → A → A
on_error none x y = x
on_error (some n) x y = y

-- The rows of a table in the order of their primary keys.
abbrev pub Ascending : List Event → Type 0
Ascending [] = Unit
Ascending (e ∷ events) = All (λ x. e.id < x.id) events × Ascending events

-- The table of a state, and the messages that the broker has taken, the first first. A statement
-- that fails changes nothing; of a publication that fails it is not known whether it was taken.
pub record Lawful {S : Type 0} (port : Port S) : Type 0 where
  pub rows : S → List Event
  pub log : S → List Message
  pub rows-Ascending : (s : S) → Ascending (rows s)
  pub select-rows :
      (n : ℕ) (s : S) {es : List Event}
      → port.select_pending n s ≡ inr es
      → es ≡ take n (pending (rows s))
  pub publish-rows : (t b : String) (s : S) → rows (port.publish t b s).0 ≡ rows s
  pub publish-log :
      (t b : String) (s : S)
      → (port.publish t b s).1 ≡ none
      → log (port.publish t b s).0 ≡ log s ++ (t, b) ∷ []
  pub publish-keeps :
      (t b : String) (s : S) (m : Message) → In m (log s) → In m (log (port.publish t b s).0)
  pub set-rows :
      (i t : ℕ) (s : S)
      → rows (port.set_published i t s).0
        ≡ on_error (port.set_published i t s).1 (mark i t (rows s)) (rows s)
  pub set-log : (i t : ℕ) (s : S) → log (port.set_published i t s).0 ≡ log s
  pub insert-rows :
      (t b : String) (at : ℕ) (s : S)
      → (i : ℕ) × (rows (port.insert t b at s).0
          ≡ on_error
              (port.insert t b at s).1
              (rows s
                ++ record { id = i; topic = t; payload = b; created_at = at; published_at = none }
                  ∷ [])
              (rows s))
  pub insert-log : (t b : String) (at : ℕ) (s : S) → log (port.insert t b at s).0 ≡ log s

-- The commands of Redis leave the table and the broker as they are; a script is run or not.
pub record Apart {S : Type 0} (port : Port S) (law : Lawful port) : Type 0 where
  pub set_nx-rows :
      (k v : String) (ttl now : ℕ) (s : S)
      → law.rows (port.redis.set_nx k v ttl now s).0 ≡ law.rows s
  pub set_nx-log :
      (k v : String) (ttl now : ℕ) (s : S) → law.log (port.redis.set_nx k v ttl now s).0 ≡ law.log s
  pub del-rows : (k : String) (s : S) → law.rows (port.redis.del k s).0 ≡ law.rows s
  pub del-log : (k : String) (s : S) → law.log (port.redis.del k s).0 ≡ law.log s
  pub eval-either :
      (f : S → S × ℕ) (s : S)
      → ((law.rows (port.redis.eval f s).0 ≡ law.rows (f s).0)
          × (law.log (port.redis.eval f s).0 ≡ law.log (f s).0))
        ⊎ ((law.rows (port.redis.eval f s).0 ≡ law.rows s)
            × (law.log (port.redis.eval f s).0 ≡ law.log s))
