-- ===== src/Ratelimit/Bound.antt =====
-- ratelimit/ratelimit.go: how much a bucket grants.
use fibr.Prelude.{
  ℕ, ◌+◌, ◌-◌, ◌*◌, ◌≤◌, ◌<◌, ◌≡◌, true, Option, none, some, if◌then◌else◌, ltb, leb, arith, inl,
  inr, Bool-cases, nat_cmp,
}
use fibr.Ratelimit.{Rule, Bucket, ceil_div, live, bucket_ttl_ms, refilled, fits, token_bucket}

pub le-ceil_div : (x d : ℕ) → 0 < d → x ≤ ceil_div x d * d
unfolding ceil_div
le-ceil_div x d h = grind arith

max_ms : ℕ → ℕ
max_ms ms = if ltb ms 1000 then 1000 else ms

pub mul_mono : (a b c : ℕ) → a ≤ b → a * c ≤ b * c
mul_mono a b c h = grind arith

no_time : (t r : ℕ) → (t - t) * r ≡ 0
no_time t r = grind arith

pub add_mul : (a b r : ℕ) → (a + b) * r ≡ a * r + b * r
add_mul a b r = grind arith

elapsed_split : (ts t k r : ℕ) → ts ≤ t → (t + k - ts) * r ≡ (t - ts) * r + k * r
elapsed_split ts t k r h = grind arith

pub elapsed_add : (ts t r : ℕ) → ts ≤ t → t * r ≡ (t - ts) * r + ts * r
elapsed_add ts t r h = grind arith

module _ (scale : ℕ) (rule : Rule) (flows : 0 < rule.rate) where
  bucket_ttl_ms_lem :
      bucket_ttl_ms scale rule ≡ max_ms (ceil_div (rule.capacity * scale) (rule.rate * 1000) * 1000)
  unfolding bucket_ttl_ms max_ms
  bucket_ttl_ms_lem = ground arith

  le-max_ms : (ms : ℕ) → ms ≤ max_ms ms
  unfolding max_ms
  le-max_ms ms = ground arith

  max_ms_pos : (ms : ℕ) → 1000 ≤ max_ms ms
  unfolding max_ms
  max_ms_pos ms = ground arith

  -- A bucket expires no earlier than it is full.
  full_before_expiry : rule.capacity * scale ≤ bucket_ttl_ms scale rule * rule.rate
  full_before_expiry =
      let q = ceil_div (rule.capacity * scale) (rule.rate * 1000) in
      let enough = le-ceil_div (rule.capacity * scale) (rule.rate * 1000) (omega arith) in
      rw bucket_ttl_ms_lem (
        grind
          (arith, enough, mul_mono (q * 1000) (max_ms (q * 1000)) rule.rate (le-max_ms (q * 1000))))

  -- What is known of a bucket at a time: it was written before, and is full when it expires.
  abbrev pub Kept : ℕ → Option Bucket → Type 0
  Kept t none = Unit {0}
  Kept t (some b) = (b.ts ≤ t) × (rule.capacity * scale + b.ts * rule.rate ≤ b.expires * rule.rate)

  abbrev pub available : ℕ → Option Bucket → ℕ
  available t found = refilled scale rule t (live t found)

  -- The tokens grow by the rate at most.
  pub available_grows :
      (t k : ℕ) (found : Option Bucket)
      → Kept t found
      → available (t + k) found ≤ available t found + k * rule.rate
  unfolding refilled
  available_grows t k none kept = omega arith
  available_grows t k (some b) (before, full) = elim (Bool-cases (ltb t b.expires)) [
    | inr gone ↦ rw gone (ground (arith, gone))
    | inl here ↦ elim (Bool-cases (ltb (t + k) b.expires)) [
      | inl still ↦ rw (here, still) (omega (arith, elapsed_split b.ts t k rule.rate before))
      | inr over ↦
          let late : b.expires ≤ t + k = ground arith in
          rw (here, over)
            (omega (
              arith,
              elapsed_split b.ts t k rule.rate before,
              elapsed_add b.ts (t + k) rule.rate (omega arith),
              mul_mono b.expires (t + k) rule.rate late,
            ))
    ]
  ]

  pub refilled-le : (t : ℕ) (v : Option Bucket) → refilled scale rule t v ≤ rule.capacity * scale
  unfolding refilled
  refilled-le t none = omega arith
  refilled-le t (some b) = omega arith

  refilled_at_once :
      (t tokens e : ℕ)
      → tokens ≤ rule.capacity * scale
      → refilled scale rule t (some (record { tokens = tokens; ts = t; expires = e })) ≡ tokens
  unfolding refilled
  refilled_at_once t tokens e h = omega (arith, no_time t rule.rate)

  unexpired_new : (t : ℕ) → ltb t (t + bucket_ttl_ms scale rule) ≡ true
  unexpired_new t =
      let long = max_ms_pos (ceil_div (rule.capacity * scale) (rule.rate * 1000) * 1000) in
      ground (arith, bucket_ttl_ms_lem)

  -- What a request takes is missing from what is available.
  pub available-token_bucket :
      (t cost : ℕ) (v : Option Bucket)
      → available t (some (token_bucket scale rule t cost v))
          + (if fits scale rule t cost v then cost * scale else 0)
        ≡ refilled scale rule t v
  unfolding token_bucket fits
  available-token_bucket t cost v =
      let most = refilled-le t v in
      elim (Bool-cases (leb (cost * scale) (refilled scale rule t v))) [
        | inl enough ↦
            rw (unexpired_new t, enough)
              (ground (
                arith,
                enough,
                refilled_at_once t (refilled scale rule t v - cost * scale)
                    (t + bucket_ttl_ms scale rule),
              ))
        | inr short ↦
            rw (unexpired_new t, short)
              (ground (
                arith,
                refilled_at_once t (refilled scale rule t v) (t + bucket_ttl_ms scale rule),
              ))
      ]

  pub token_bucket-Kept :
      (t cost : ℕ) (v : Option Bucket) → Kept t (some (token_bucket scale rule t cost v))
  unfolding token_bucket
  token_bucket-Kept t cost v = (
    omega arith,
    omega (arith, full_before_expiry, add_mul t (bucket_ttl_ms scale rule) rule.rate),
  )
