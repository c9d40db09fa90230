-- ===== src/RateLimit.antt =====
-- `TokenBucket` of src/wordsworth/rate_limit.py. Time is counted in ticks of the clock and tokens in
-- units, `unit` of them to a request, so that a tick refills a whole number of units, `rate`.
pub mod Bounds
use Prim.Native.String.{String}
use wordsworth.Prelude.{
  ℕ, ◌+◌, ◌-◌, ◌*◌, ◌/◌, min, max, Bool, true, false, Option, none, some, List, [], ◌∷◌, ◌==◌,
  string_eq, leb, if◌then◌else◌,
}

pub record BucketState : Type 0 where
  pub tokens : ℕ
  pub updated_at : ℕ

pub record Decision : Type 0 where
  pub allowed : Bool
  pub retry_after : ℕ

-- `InMemoryStore.get`
unfoldable pub bucket_of : String → List (String × BucketState) → Option BucketState
bucket_of k [] = none
bucket_of k ((j, b) ∷ bs) = if j == k then some b else bucket_of k bs

-- `InMemoryStore.put`
unfoldable pub put_bucket :
    String → BucketState → List (String × BucketState) → List (String × BucketState)
put_bucket k b [] = (k, b) ∷ []
put_bucket k b ((j, c) ∷ bs) = if j == k then (k, b) ∷ bs else (j, c) ∷ put_bucket k b bs

module _ (unit rate burst ticks_per_second : ℕ) where
  -- What a bucket holds now: full if it is new, and refilled since it was last seen.
  unfoldable pub refilled : Option BucketState → ℕ → ℕ
  refilled none now = burst
  refilled (some b) now = min burst (b.tokens + (now - b.updated_at) * rate)

  -- `max(1, ceil((1.0 - tokens) / rate))` in seconds
  abbrev pub wait : ℕ → ℕ
  wait tokens =
      let per_second = rate * ticks_per_second in
      max 1 (((unit - tokens) + (per_second - 1)) / per_second)

  -- `check`
  unfoldable pub check :
      String → ℕ → List (String × BucketState) → Decision × List (String × BucketState)
  unfolding bucket_of put_bucket refilled
  check key now bs =
      let tokens = refilled (bucket_of key bs) now in
      if leb unit tokens
      then (
        record { allowed = true; retry_after = 0 },
        put_bucket key (record { tokens = tokens - unit; updated_at = now }) bs,
      )
      else (
        record { allowed = false; retry_after = wait tokens },
        put_bucket key (record { tokens = tokens; updated_at = now }) bs,
      )

  -- The requests of one client at the times of the list: how many were allowed, and the store.
  unfoldable pub admitted :
      String → List ℕ → List (String × BucketState) → ℕ × List (String × BucketState)
  unfolding check
  admitted key [] bs = (0, bs)
  admitted key (now ∷ times) bs =
      let (d, after) = check key now bs in
      let (n, last) = admitted key times after in (if d.allowed then n + 1 else n, last)
