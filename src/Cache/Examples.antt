-- ===== src/Cache/Examples.antt =====
-- Tests of the cache, and its theorems at concrete caches.
use fibr.Prelude.{ℕ, ◌≤◌, ◌≡◌, refl, some, List, [], ◌∷◌, arith, string_cmp}
use fibr.Prelude.Int.{pos}
use fibr.Prelude.Assoc.{lookup, insert}
use fibr.Cache.{
  Cache, Config, new, with_max_size, get, set_ttl, len, remove_locked, evict_oldest, expired,
  get_or_load, value,
}
use fibr.Cache.Invariant.{Inv, get_or_load-Inv, new-Inv, set_ttl-Inv}
use fibr.Cache.Bounds.{Call, gets, sets, run, run-new-Inv, len-run, Bounded, step, set_ttl-Bounded}
use fibr.Cache.Views.{view}
use fibr.Cache.Recency.{fresh, view-run-step}

abbrev two : List (Config → Config)
two = with_max_size (pos 2) ∷ []

abbrev history : List (ℕ × Call ℕ)
history =
    (0, sets "a" 1 (pos 0)) ∷ (1, sets "b" 2 (pos 5)) ∷ (2, gets "a") ∷ (3, sets "c" 3 (pos 9)) ∷ []

-- `a` was used after `b`, so `b` is evicted.
evicts_oldest : (run (new two) history).lru ≡ "c" ∷ "a" ∷ []
unfolding run new get set_ttl evict_oldest remove_locked lookup insert expired
evicts_oldest = refl

run-new-Inv_example : Inv (run (new two) history)
run-new-Inv_example = run-new-Inv two history

len-run_example : len (run (new two) history) ≤ 2
unfolding new
len-run_example = len-run two 1 history refl

new-two-Bounded : Bounded 1 (new {V = ℕ} two)
unfolding new
new-two-Bounded = record { limit = refl; within = omega arith }

abbrev two_used : Cache ℕ
two_used = set_ttl "b" 2 (pos 9) 1 (set_ttl "a" 1 (pos 9) 0 (new two))

-- `a` is got and then spared, though `b` was set after it.
view-run-step_example :
    view {V = ℕ} 4 "a" (run (step two_used (2, gets "a")) ((3, sets "c" 3 (pos 0)) ∷ [])) ≡ some 1
unfolding expired get set_ttl lookup insert new evict_oldest remove_locked step
view-run-step_example =
    view-run-step "a" (gets "a") (fresh "a" 1 (pos 9) 0) 2 4 1 two_used
      ((3, sets "c" 3 (pos 0)) ∷ [])
      (set_ttl-Inv "b" 2 (pos 9) 1 (set_ttl "a" 1 (pos 9) 0 (new two))
        (set_ttl-Inv "a" 1 (pos 9) 0 (new two) (new-Inv two)))
      (set_ttl-Bounded "b" 2 (pos 9) 1 (set_ttl "a" 1 (pos 9) 0 (new two))
        (set_ttl-Inv "a" 1 (pos 9) 0 (new two) (new-Inv two))
        (set_ttl-Bounded "a" 1 (pos 9) 0 (new two) (new-Inv two) new-two-Bounded))
      refl refl (omega arith) ((refl, refl), tt) refl

get_or_load-Inv_example : Inv (get_or_load (λ f d. f d) "x" 5 (value 9) (run (new two) history)).0
get_or_load-Inv_example =
    get_or_load-Inv (λ f d. f d) "x" 5 (value 9) (run (new two) history) (λ f d. refl)
      (run-new-Inv two history)
