-- ===== src/Inbox.antt =====
-- inbox/inbox.go: each message has its effect once. The database is a parameter of which the model
-- keeps the markers and the rest of the data; `RunInTx` commits on nil and rolls back on an error.
mod Examples
use fibr.Prelude.{
  ℕ, ◌+◌, ◌≡◌, String, Bool, true, false, Option, none, some, List, [], ◌∷◌, contains,
  if◌then◌else◌, ◌==◌, ◌||◌, string_cmp, arith, eqb_refl,
}

pub record Database (D : Type 0) : Type 0 where
  pub marked : List String
  pub stored : D

pub data Error (E : Type 0) : Type 0 where
  mark_message rows_affected : ℕ → Error E
  from_fn : E → Error E

-- What the statement that inserts the marker meets: success, or an error in one of its two steps.
pub data Insert : Type 0 where
  inserts : Insert
  exec_fails rows_fails : ℕ → Insert

abbrev pub Tx : Type 0 → Type 0 → Type 0
Tx D E = Database D → Database D × Option (Error E)

module _ {D E : Type 0} where
  abbrev pub run_in_tx : Tx D E → Tx D E
  run_in_tx body db =
      let (db', e) = body db in elim e [ none ↦ (db', none) | some x ↦ (db, some x) ]

  abbrev on_stored : (D → D × Option E) → Tx D E
  on_stored fn db =
      let (d, e) = fn db.stored in
      (record db { stored = d }, elim e [ none ↦ none | some x ↦ some (from_fn x) ])

  -- The body of the transaction; the marker of a message that is there already is not inserted.
  abbrev once_in_tx : Insert → String → (D → D × Option E) → Tx D E
  once_in_tx (exec_fails n) id fn db = (db, some (mark_message n))
  once_in_tx (rows_fails n) id fn db = (db, some (rows_affected n))
  once_in_tx inserts id fn db =
      if contains db.marked id
      then (db, none)
      else on_stored fn (record db { marked = id ∷ db.marked })

  unfoldable pub once : Insert → String → (D → D × Option E) → Tx D E
  once ins id fn = run_in_tx (once_in_tx ins id fn)

  -- A message that comes again after it was processed changes nothing and gives no error, whatever
  -- the function would do now, as long as the database takes the statement.
  once_again :
      (id : String) (fn gn : D → D × Option E) (db db' : Database D)
      → once inserts id fn db ≡ (db', none)
      → once inserts id gn db' ≡ (db', none)
  unfolding once
  once_again id fn gn db db' h = ground (arith, eqb_refl id)

  -- After an error nothing is kept: the message can be processed again.
  once_failed :
      (ins : Insert) (id : String) (fn : D → D × Option E) (db db' : Database D) {e : Error E}
      → once ins id fn db ≡ (db', some e)
      → db' ≡ db
  unfolding once
  once_failed ins id fn db db' h = ground arith
