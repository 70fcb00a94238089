-- ===== src/Ratelimit/Examples.antt =====
-- ratelimit: runs of the code.
use fibr.Prelude.{◌+◌, ◌*◌, ◌≤◌, ◌≡◌, refl, false, List, [], ◌∷◌, ◌++◌, arith}
use fibr.Prelude.Int.{pos}
use fibr.Prelude.Bytes.{codes, bytes_cmp}
use fibr.Prelude.Assoc.{lookup, insert, delete}
use fibr.Ratelimit.{
  Rule, Outcome, Server, answers, loses_reply, key_prefix, allow, token_bucket, fits, refilled,
  bucket_ttl_ms, retry_after, ceil_div, middleware, too_many_requests,
}
use fibr.Ratelimit.History.{Call, waited, granted, granted_bound}

-- Two tokens, and one more each second.
abbrev two : Rule
two = record { capacity = 2; rate = 1 }

abbrev calls : List Call
calls =
    record { wait = 0; link = answers; key = codes "ann"; cost = pos 1 }
    ∷ record { wait = 5; link = loses_reply; key = codes "ann"; cost = pos 1 }
    ∷ record { wait = 5; link = answers; key = codes "bob"; cost = pos 1 }
    ∷ record { wait = 990; link = answers; key = codes "ann"; cost = pos 1 }
    ∷ []

granted_bound_example :
    granted 1000 two (key_prefix ++ codes "ann") 50 calls [] * 1000
    ≤ two.capacity * 1000 + waited calls * two.rate
granted_bound_example = granted_bound 1000 two (codes "ann") 50 calls (omega arith)

granted_three : granted 1000 two (key_prefix ++ codes "ann") 50 calls [] ≡ 3
unfolding allow token_bucket fits refilled bucket_ttl_ms ceil_div lookup insert delete retry_after
granted_three = refl

abbrev drained : Server
drained =
    (allow 1000 answers (allow 1000 answers [] (codes "ann") two (pos 1) 50).0 (codes "ann") two
      (pos 1) 50).0

abbrev no_more : Outcome
no_more = record { allowed = false; remaining = 0; retry_after = 1 }

-- The middleware answers 429 with the headers.
denied : (middleware 1000 answers drained (codes "ann") two 60).1 ≡ too_many_requests 2 0 1
unfolding middleware allow token_bucket fits refilled bucket_ttl_ms ceil_div lookup insert delete
    retry_after
denied = refl
