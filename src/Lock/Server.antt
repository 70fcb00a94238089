-- ===== src/Lock/Server.antt =====
-- A Redis for the tests of locks: keys with a value and an expiry.
use fibr.Prelude.{
  ℕ, ◌+◌, ◌*◌, refl, String, Bool, true, false, Option, none, some, List, leb, if◌then◌else◌,
  string_cmp, arith, inl,
}
use fibr.Prelude.Assoc.{lookup, insert, delete, lookup-insert, lookup-delete}
use fibr.Lock.{Redis, Reply, reply}
use fibr.Lock.Held.{Lawful}

pub record Value : Type 0 where
  pub value : String
  pub expiry : ℕ

abbrev pub Table : Type 0
Table = List (String × Value)

abbrev pub live : ℕ → Option Value → Option String
live t none = none
live t (some e) = if leb e.expiry t then none else some e.value

abbrev put : Option String → String → String → ℕ → Table → Table × Reply Bool
put none k v at s = (insert k (record { value = v; expiry = at }) s, reply true)
put (some w) k v at s = (s, reply false)

abbrev renew : Option Value → String → ℕ → Table → Table × ℕ
renew none k at s = (s, 0)
renew (some e) k at s = (insert k (record e { expiry = at }) s, 1)

abbrev pub server : Redis Table
server = record {
  set_nx = λ k v ttl now s. put (live now (lookup k s)) k v (now + ttl) s;
  get = λ k now s. live now (lookup k s);
  del = λ k s. (delete k s, 1);
  pexpire = λ k millis now s. renew (lookup k s) k (now + millis * 1000000) s;
  eval = λ f s. ((f s).0, reply (f s).1);
}

abbrev pub server-Lawful : Lawful server
server-Lawful = record {
  holder = λ s t k. live t (lookup k s);
  get-holder = λ k now s. refl;
  set_nx-reply = λ k v ttl now s b h. ground (arith, h);
  set_nx-holder = λ k v ttl now t s j h. inl (
      ground (
        arith,
        lookup-insert k j (record { value = v; expiry = now + ttl }) s,
        string_cmp.eqb_iff k j,
      ));
  del-holder = λ k s t j. ground (arith, lookup-delete k j s);
  eval-script = λ f s. inl refl;
}
