-- ===== src/SfCall/Call/Verdicts.antt =====
-- What an attempt of `callSF`, frontend/src/lib/salesforce.ts, may come to.
use min_demo.Base.{ℕ, ◌<◌, ◌≡◌, refl, ◌&&◌, inl, inr, arith, ltb, ◌==◌, Bool-cases, Text}
use min_demo.SfCall.Call.{
  Reply, response, aborted, network_error, parsed, null_body, not_json, Verdict, retry_after,
  refresh_and_retry, done, verdict, backoff, is_transient_status, is_csrf_error,
}

-- When an attempt waits and goes on, and when it asks for a new token.
abbrev pub Fits : ℕ → Verdict → Type 0
Fits a (retry_after ms) = (a < 2) × (ms ≡ backoff a)
Fits a refresh_and_retry = a ≡ 0
Fits a (done r) = Unit

pub verdict-Fits : (lower : Text → Text) (a : ℕ) (reply : Reply) → Fits a (verdict lower a reply)
unfolding verdict
verdict-Fits lower a (response status not_json) =
    elim (Bool-cases (is_transient_status status && ltb a 2)) [
      | inl e ↦ rw e (ground arith, refl)
      | inr e ↦ rw e tt
    ]
verdict-Fits lower a (response status (null_body message)) =
    elim (Bool-cases (is_transient_status status && ltb a 2)) [
      | inl e ↦ rw e (ground arith, refl)
      | inr e ↦ elim (Bool-cases (ltb a 2)) [
        | inl f ↦ rw (e, f) (ground arith, refl)
        | inr f ↦ rw (e, f) tt
      ]
    ]
verdict-Fits lower a (response status (parsed raw)) =
    elim (Bool-cases (is_transient_status status && ltb a 2)) [
      | inl e ↦ rw e (ground arith, refl)
      | inr e ↦ elim (Bool-cases (status == 403 && (is_csrf_error raw.error_code && a == 0))) [
        | inl f ↦ rw (e, f) (ground arith)
        | inr f ↦ rw (e, f) tt
      ]
    ]
verdict-Fits lower a aborted = tt
verdict-Fits lower a (network_error message) = elim (Bool-cases (ltb a 2)) [
  | inl e ↦ rw e (ground arith, refl)
  | inr e ↦ rw e tt
]
