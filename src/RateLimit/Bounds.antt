-- ===== src/RateLimit/Bounds.antt =====
-- How many requests a bucket lets through.
use Prim.Native.String.{String}
use wordsworth.Prelude.{
  ℕ, ◌+◌, ◌-◌, ◌*◌, ◌≤◌, ◌≡◌, refl, true, none, some, List, [], ◌∷◌, string_eq, leb, leb→le, arith,
  eq_iff, Bool-cases, inl, inr,
}
use wordsworth.RateLimit.{BucketState, bucket_of, put_bucket, refilled, check, admitted}

bucket_of-put_bucket :
    (k : String) (b : BucketState) (bs : List (String × BucketState))
    → bucket_of k (put_bucket k b bs) ≡ some b
unfolding bucket_of put_bucket
bucket_of-put_bucket k b [] = ground (arith, eq_iff k k)
bucket_of-put_bucket k b ((j, c) ∷ bs) = ground (arith, bucket_of-put_bucket k b bs, eq_iff k k)

-- The times go up, from the one given to the last.
abbrev pub IsOrdered : ℕ → List ℕ → Type 0
IsOrdered t [] = Unit
IsOrdered t (now ∷ times) = (t ≤ now) × IsOrdered now times

abbrev pub last_time : ℕ → List ℕ → ℕ
last_time t [] = t
last_time t (now ∷ times) = last_time now times

module _ (unit rate burst second : ℕ) (key : String) where
  refilled_le :
      (b : BucketState) (now : ℕ)
      → refilled unit rate burst second (some b) now ≤ b.tokens + (now - b.updated_at) * rate
  unfolding refilled
  refilled_le b now = omega arith

  last_time_le : (t : ℕ) (times : List ℕ) → IsOrdered t times → t ≤ last_time t times
  last_time_le t [] o = omega arith
  last_time_le t (now ∷ times) o = omega (arith, o.0, last_time_le now times o.1)

  refill_split :
      (t now last : ℕ)
      → t ≤ now
      → now ≤ last
      → (now - t) * rate + (last - now) * rate ≡ (last - t) * rate
  refill_split t now last l m = grind arith

  -- One check takes a request's units from what is there, or nothing.
  check_allowed :
      (now : ℕ) (bs : List (String × BucketState)) (x : ℕ)
      → refilled unit rate burst second (bucket_of key bs) now ≡ x
      → leb unit x ≡ true
      → check unit rate burst second key now bs ≡ (
        record { allowed = true; retry_after = 0 },
        put_bucket key (record { tokens = x - unit; updated_at = now }) bs,
      )
  unfolding check
  check_allowed now bs x e l = rw (e, l) refl

  -- What a bucket can pay for: its units, and the refill from when it was seen until `last`.
  abbrev budget : BucketState → ℕ → ℕ
  budget b last = b.tokens + (last - b.updated_at) * rate

  admitted-budget :
      (times : List ℕ) (bs : List (String × BucketState)) (b : BucketState)
      → bucket_of key bs ≡ some b
      → IsOrdered b.updated_at times
      → (admitted unit rate burst second key times bs).0 * unit
        ≤ budget b (last_time b.updated_at times)
  unfolding admitted
  admitted-budget [] bs b there o = omega arith
  admitted-budget (now ∷ times) bs b there o =
      let have = refilled unit rate burst second (bucket_of key bs) now in
      let last = last_time now times in
      let late : now ≤ last = last_time_le now times o.1 in
      let split = refill_split b.updated_at now last o.0 late in
      let most : have ≤ b.tokens + (now - b.updated_at) * rate = rw there (refilled_le b now) in
      elim (Bool-cases (leb unit have)) [
        | inl pays ↦
            let c : BucketState = record { tokens = have - unit; updated_at = now } in
            let ih =
              admitted-budget times (put_bucket key c bs) c (bucket_of-put_bucket key c bs) o.1 in
            rw (pays, check) (grind (arith, ih, most, split, leb→le unit have pays))
        | inr refused ↦
            let c : BucketState = record { tokens = have; updated_at = now } in
            let ih =
              admitted-budget times (put_bucket key c bs) c (bucket_of-put_bucket key c bs) o.1 in
            rw (refused, check) (omega (arith, ih, most, split))
      ]

  -- A client that is new makes, between its first and its last request, no more requests that are
  -- allowed than a full bucket and the refill of that time pay for, if the clock does not go back.
  pub admitted_le :
      (now : ℕ) (times : List ℕ) (bs : List (String × BucketState))
      → bucket_of key bs ≡ none
      → IsOrdered now times
      → (admitted unit rate burst second key (now ∷ times) bs).0 * unit
        ≤ burst + (last_time now times - now) * rate
  unfolding admitted
  admitted_le now times bs new o = elim (Bool-cases (leb unit burst)) [
    | inl pays ↦
        let c : BucketState = record { tokens = burst - unit; updated_at = now } in
        let ih = admitted-budget times (put_bucket key c bs) c (bucket_of-put_bucket key c bs) o in
        rw (new, refilled, pays, check) (grind (arith, ih, leb→le unit burst pays))
    | inr refused ↦
        let c : BucketState = record { tokens = burst; updated_at = now } in
        let ih = admitted-budget times (put_bucket key c bs) c (bucket_of-put_bucket key c bs) o in
        rw (new, refilled, refused, check) (omega (arith, ih))
  ]
