-- ===== src/SfClient/Fetch.antt =====
-- `sfFetch` of frontend/src/lib/sf-client.ts: three attempts at most, with a wait that doubles.
-- What the network does at each attempt is the section's parameter `net`.
use Prim.Native.Nat.{zero, suc}
use min_demo.Base.{
  ℕ, ◌+◌, ◌-◌, ◌*◌, ◌^◌, ◌<◌, ◌≡◌, refl, Bool, true, false, ◌||◌, ◌&&◌, String, arith, ltb, ◌==◌,
  if◌then◌else◌, ◌⊎◌, inl, inr, Bool-cases, not,
}

abbrev pub sf_max_retries : ℕ
sf_max_retries = 2

abbrev pub sf_retry_base_ms : ℕ
sf_retry_base_ms = 500

-- One call of `fetch`: a response with its status, the abort of the 30 s timeout, or any other
-- exception, with its message.
pub data Attempt {ℓ} (R : Type ℓ) : Type ℓ where
  response : ℕ → R → Attempt R
  aborted : Attempt R
  network_error : String → Attempt R

-- What `sfFetch` does: it returns a response, throws the timeout error, rethrows the network's
-- error, or leaves the loop and throws the error that it kept.
pub data Fetched {ℓ} (R : Type ℓ) : Type ℓ where
  fetched : ℕ → R → Fetched R
  timed_out : Fetched R
  rethrown : String → Fetched R
  fell_through : Fetched R

-- The outcome with the number of calls of `fetch` and the time spent waiting between them.
pub record Run {ℓ} (R : Type ℓ) : Type ℓ where
  pub outcome : Fetched R
  pub calls : ℕ
  pub waited : ℕ

unfoldable pub is_retryable : ℕ → Bool
is_retryable status = status == 429 || status == 503

-- `SF_RETRY_BASE_MS * Math.pow(2, attempt - 1)`, before every attempt but the first.
abbrev pub delay : ℕ → ℕ
delay attempt = if ltb 0 attempt then sf_retry_base_ms * 2 ^ (attempt - 1) else 0

module _ {ℓ} {R : Type ℓ} where
  -- One round: `again` is what the rounds after it give.
  abbrev round : ℕ → ℕ → Attempt R → Run R → Run R
  round attempt waited (response status body) again =
      if is_retryable status && ltb attempt sf_max_retries
      then again
      else record { outcome = fetched status body; calls = attempt + 1; waited = waited }
  round attempt waited aborted again = record {
    outcome = timed_out;
    calls = attempt + 1;
    waited = waited;
  }
  round attempt waited (network_error message) again =
      if ltb attempt sf_max_retries
      then again
      else record { outcome = rethrown message; calls = attempt + 1; waited = waited }

  -- The loop `for (attempt = …; attempt <= SF_MAX_RETRIES; attempt++)` with the rounds left.
  attempts_from : (ℕ → Attempt R) → ℕ → ℕ → ℕ → Run R
  attempts_from net zero attempt waited = record {
    outcome = fell_through;
    calls = attempt;
    waited = waited;
  }
  attempts_from net (suc left) attempt waited =
      let waited' = waited + delay attempt in
      let again = attempts_from net left (attempt + 1) waited' in
      round attempt waited' (net attempt) again

  unfoldable pub sf_fetch : (ℕ → Attempt R) → Run R
  unfolding attempts_from is_retryable
  sf_fetch net = attempts_from net (sf_max_retries + 1) 0 0

  -- An attempt that ends the loop before the last round.
  abbrev pub is_decisive : Attempt R → Bool
  is_decisive (response status body) = not (is_retryable status)
  is_decisive aborted = true
  is_decisive (network_error message) = false

  -- What the caller gets of the attempt that ends the loop.
  abbrev pub conclude : Attempt R → Fetched R
  conclude (response status body) = fetched status body
  conclude aborted = timed_out
  conclude (network_error message) = rethrown message

  round_decisive :
      (attempt waited : ℕ) (a : Attempt R) (again : Run R)
      → is_decisive a ≡ true
      → round attempt waited a again
        ≡ record { outcome = conclude a; calls = attempt + 1; waited = waited }
  round_decisive attempt waited (response status body) again h = ground arith
  round_decisive attempt waited aborted again h = refl
  round_decisive attempt waited (network_error m) again h = absurd (cc)

  round_retry :
      (attempt waited : ℕ) (a : Attempt R) (again : Run R)
      → is_decisive a ≡ false
      → attempt < sf_max_retries
      → round attempt waited a again ≡ again
  round_retry attempt waited (response status body) again h k = ground arith
  round_retry attempt waited aborted again h k = absurd (cc)
  round_retry attempt waited (network_error m) again h k = ground arith

  round_last :
      (waited : ℕ) (a : Attempt R) (again : Run R)
      → round 2 waited a again ≡ record { outcome = conclude a; calls = 3; waited = waited }
  round_last waited (response status body) again = ground arith
  round_last waited aborted again = refl
  round_last waited (network_error m) again = refl

module _ {ℓ} {R : Type ℓ} (net : ℕ → Attempt R) where
  abbrev pub EndsAt : ℕ → ℕ → Type ℓ
  EndsAt attempt waited =
      sf_fetch net
      ≡ record { outcome = conclude (net attempt); calls = attempt + 1; waited = waited }

  -- The first decisive attempt of three ends the call with what that attempt gave; if neither of
  -- the first two is decisive, the third ends it whatever it gives. It waits 500 ms before the
  -- second attempt and 1000 ms more before the third, and it never makes a fourth.
  pub sf_fetch_cases :
      ((is_decisive (net 0) ≡ true) × EndsAt 0 0)
      ⊎ (((is_decisive (net 0) ≡ false) × (is_decisive (net 1) ≡ true) × EndsAt 1 500)
          ⊎ ((is_decisive (net 0) ≡ false) × (is_decisive (net 1) ≡ false) × EndsAt 2 1500))
  unfolding sf_fetch
  sf_fetch_cases = elim (Bool-cases (is_decisive (net 0))) [
    | inl first ↦ inl (first, round_decisive 0 0 (net 0) _ first)
    | inr retried ↦ elim (Bool-cases (is_decisive (net 1))) [
      | inl second ↦ inr (
          inl (
            retried,
            second,
            rw (round_retry 0 0 (net 0) _ retried (omega arith))
                (round_decisive 1 500 (net 1) _ second),
          ))
      | inr again ↦ inr (
          inr (
            retried,
            again,
            rw (round_retry 0 0 (net 0) _ retried (omega arith))
                (rw (round_retry 1 500 (net 1) _ again (omega arith)) (round_last 1500 (net 2) _)),
          ))
    ]
  ]
