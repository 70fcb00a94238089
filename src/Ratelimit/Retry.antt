-- ===== src/Ratelimit/Retry.antt =====
-- ratelimit/ratelimit.go: the time after which a request that was denied may come again.
use fibr.Prelude.{ℕ, Bool, false, Option, none, some, ◌++◌, nat_cmp}
use fibr.Prelude.Int.{ℤ}
use fibr.Prelude.Bytes.{Bytes, bytes_cmp}
use fibr.Prelude.Assoc.{lookup}
use fibr.Ratelimit.{Rule, Bucket, Outcome, Server, key_prefix, live}

abbrev pub is_allowed : Option Outcome → Bool
is_allowed none = false
is_allowed (some r) = r.allowed

module _ (scale : ℕ) (rule : Rule) (key : Bytes) (cost : ℤ) (s : Server) (t : ℕ) where
  abbrev first_bucket : Option Bucket
  first_bucket = live t (lookup (key_prefix ++ key) s)
