-- ===== src/Retry.antt =====
-- src/wordsworth/retry.py: bounded retry of transient failures. A delay is a natural number of the
-- unit in which `base_delay` is given.
pub mod Bounds
pub mod Audited
use text.Mathlib.Text.{find?}
use wordsworth.Prelude.{
  ℕ, zero, suc, ◌+◌, ◌-◌, ◌*◌, ◌^◌, max, String, Bool, true, false, not, ◌||◌, Option, none, some,
  List, [], ◌∷◌, ◌++◌, ◌==◌, nat_eq, leb, ok, err, Outcome, modify, raise, ◌>>◌, ◌>>=◌, continue,
  if◌then◌else◌,
}
use wordsworth.World.{
  World, Db, Exc, HttpStatus, status, unreadable, RetryLine, value_error, type_error, key_error,
  extraction_error, profiling_error, dossier_error, supersession_error, deletion_error, role_error,
  anonymization_invariant_error, anonymization_engine_error, embedding_unavailable,
  connection_error, timeout_error, os_error, transport_error, integrity_error, missing_audit_stream,
  other,
}

-- `needle in name`
unfoldable pub names : String → String → Bool
names needle name = elim (find? name needle) [ none ↦ false | some _ ↦ true ]

-- `int(status) >= 500`, and `False` where `int` raises
abbrev is_server_error : HttpStatus → Bool
is_server_error (status n) = leb 500 n
is_server_error unreadable = false

-- The test on an exception that none of the classes before it caught.
abbrev other_transient : String → Option HttpStatus → Option HttpStatus → Bool
other_transient name (some s) response = is_server_error s
other_transient name none (some s) = is_server_error s
other_transient name none none = names "connection" name || names "timeout" name

unfoldable pub is_transient : Exc → Bool
unfolding names
is_transient value_error = false
is_transient type_error = false
is_transient key_error = false
is_transient extraction_error = false
is_transient profiling_error = false
is_transient dossier_error = false
is_transient supersession_error = false
is_transient deletion_error = false
is_transient role_error = false
is_transient anonymization_invariant_error = false
is_transient anonymization_engine_error = true
is_transient embedding_unavailable = true
is_transient connection_error = true
is_transient timeout_error = true
is_transient os_error = true
is_transient transport_error = true
is_transient integrity_error = false
is_transient missing_audit_stream = false
is_transient (other name code response) = other_transient name code response

-- `log_retry`
abbrev log_retry : String → ℕ → ℕ → Option ℕ → Db (Unit {0})
log_retry what attempt attempts delay = modify λ w. record w {
  retries =
      w.retries
      ++ record { what = what; attempt = attempt; attempts = attempts; delay = delay } ∷ [];
}

abbrev sleep : ℕ → Db (Unit {0})
sleep delay = modify λ w. record w { slept = w.slept ++ delay ∷ [] }

-- `AssertionError("unreachable")`
abbrev pub unreachable : Exc
unreachable = other "assertionerror" none none

module _ {A : Type 0} (fn : Db A) (attempts base_delay : ℕ) (what : String) where
  -- What the loop's body does with the outcome of attempt `i`; `again` is the rest of the loop.
  unfoldable pub after_attempt : ℕ → Db A → Outcome Exc A → Db A
  unfolding is_transient
  after_attempt i again (ok a) w = (ok a, w)
  after_attempt i again (err e) w =
      (if not (is_transient e)
          then raise e
          else if i == attempts - 1
          then log_retry what (i + 1) attempts none >> raise e
          else log_retry what (i + 1) attempts (some (base_delay * 2 ^ i))
            >> (sleep (base_delay * 2 ^ i) >> again))
        w

  -- The loop from attempt `i` on, with `left` rounds left.
  unfoldable pub retry_from : ℕ → ℕ → Db A
  unfolding after_attempt
  retry_from zero i w = (err unreachable, w)
  retry_from (suc left) i w = after_attempt i (retry_from left (suc i)) (fn w).0 (fn w).1

module _ {A : Type 0} (fn : Db A) (attempts base_delay : ℕ) (what : String) where
  unfoldable pub retry_transient : Db A
  unfolding retry_from
  retry_transient = retry_from fn (max 1 attempts) base_delay what (max 1 attempts) 0
