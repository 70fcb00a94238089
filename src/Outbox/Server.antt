-- ===== src/Outbox/Server.antt =====
-- A database, a broker and a Redis for the tests of the outbox.
use fibr.Prelude.{
  ℕ, suc, ◌+◌, ◌<◌, ◌≡◌, refl, String, none, some, List, [], ◌∷◌, ◌++◌, take, All, In-append_left,
  nat_cmp, false, inl, inr, arith, length,
}
use fibr.Lock.Server.{Table, server, server-Lawful}
use fibr.Lock.Held.{Lawful as LockLawful}
use fibr.Prelude.Assoc.{lookup, insert, delete}
use fibr.Lock.{Redis, Reply}
use fibr.Outbox.{Event, Port}
use fibr.Outbox.Laws.{Lawful, Apart, Message, pending, mark, Ascending}

-- The primary key of a row is its position.
abbrev pub number : ℕ → List Event → List Event
number n [] = []
number n (e ∷ es) = record e { id = n } ∷ number (suc n) es

number_above : (m n : ℕ) (es : List Event) → m < n → All (λ x. m < x.id) (number n es)
number_above m n [] h = tt
number_above m n (e ∷ es) h = (h, number_above m (suc n) es (omega (arith, h)))

pub number-Ascending : (n : ℕ) (es : List Event) → Ascending (number n es)
number-Ascending n [] = tt
number-Ascending n (e ∷ es) = (number_above n (suc n) es (omega arith), number-Ascending (suc n) es)

pub number-mark :
    (n i t : ℕ) (es : List Event) → number n (mark i t (number n es)) ≡ mark i t (number n es)
number-mark n i t [] = refl
number-mark n i t (e ∷ es) = ground (arith, number-mark (suc n) i t es)

pub number-append :
    (n : ℕ) (es : List Event) (e : Event)
    → number n (number n es ++ e ∷ []) ≡ number n es ++ record e { id = n + length es } ∷ []
number-append n [] e = ground arith
number-append n (x ∷ es) e = ground (arith, number-append (suc n) es e)

pub record World : Type 0 where
  pub table : List Event
  pub taken : List Message
  pub locks : Table

abbrev on_locks : {A : Type 0} → World → Table × A → World × A
on_locks w (t, a) = (record w { locks = t }, a)

abbrev new_event : String → String → ℕ → Event
new_event t b at = record { id = 0; topic = t; payload = b; created_at = at; published_at = none }

abbrev pub redis : Redis World
redis = record {
  set_nx = λ k v ttl now w. on_locks w (server.set_nx k v ttl now w.locks);
  get = λ k now w. server.get k now w.locks;
  del = λ k w. on_locks w (server.del k w.locks);
  pexpire = λ k millis now w. on_locks w (server.pexpire k millis now w.locks);
  eval = λ f w. ((f w).0, Reply.reply (f w).1);
}

abbrev pub world : Port World
world = record {
  now = λ w. 7;
  insert = λ t b at w. (record w { table = number 0 w.table ++ new_event t b at ∷ [] }, none);
  select_pending = λ n w. inr (take n (pending (number 0 w.table)));
  set_published = λ i t w. (record w { table = mark i t (number 0 w.table) }, none);
  publish = λ t b w. (record w { taken = w.taken ++ (t, b) ∷ [] }, none);
  redis = redis;
  not_acquired = λ n. false;
}

abbrev pub world-Lawful : Lawful world
world-Lawful = record {
  rows = λ w. number 0 w.table;
  log = λ w. w.taken;
  rows-Ascending = λ w. number-Ascending 0 w.table;
  select-rows = λ n w h. ground arith;
  publish-rows = λ t b w. refl;
  publish-log = λ t b w h. refl;
  publish-keeps = λ t b w m h. In-append_left m w.taken ((t, b) ∷ []) h;
  set-rows = λ i t w. number-mark 0 i t w.table;
  set-log = λ i t w. refl;
  insert-rows = λ t b at w. (0 + length w.table, number-append 0 w.table (new_event t b at));
  insert-log = λ t b at w. refl;
}

pub world-Apart : Apart world world-Lawful
world-Apart = record {
  set_nx-rows = λ k v ttl now w. refl;
  set_nx-log = λ k v ttl now w. refl;
  del-rows = λ k w. refl;
  del-log = λ k w. refl;
  eval-either = λ f w. inl (refl, refl);
}

pub redis-Lawful : LockLawful redis
redis-Lawful = record {
  holder = λ w t k. server-Lawful.holder w.locks t k;
  get-holder = λ k now w. server-Lawful.get-holder k now w.locks;
  set_nx-reply = λ k v ttl now w b h. server-Lawful.set_nx-reply k v ttl now w.locks b h;
  set_nx-holder = λ k v ttl now t w j h. server-Lawful.set_nx-holder k v ttl now t w.locks j h;
  del-holder = λ k w t j. server-Lawful.del-holder k w.locks t j;
  eval-script = λ f w. inl refl;
}

-- The lock is held by "b" until 1000.
pub holder-locked :
    (w : World)
    → redis-Lawful.holder (record w { locks = (server.set_nx "relay" "b" 1000 0 []).0 }) 10 "relay"
      ≡ some "b"
unfolding redis-Lawful lookup insert delete
holder-locked w = refl
