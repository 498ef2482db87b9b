-- ===== src/Format/Email.antt =====
-- `isValidEmail` of frontend/src/lib/format.ts against the language of its pattern.
use min_demo.Base.{
  ℕ, ◌≡◌, refl, ap, ◌⊎◌, inl, inr, ◌↔◌, Bool, true, false, ◌&&◌, [], ◌∷◌, ◌++◌, arith, ◌==◌, Text,
  All, Bool-cases, ◌≢◌,
}
use min_demo.Format.{is_part, parts_to_end, after_at, email_from, is_valid_email}

-- `[^\s@]+`, or `[^\s@]*` after a unit that was read.
abbrev IsRun : Bool → Text → Type 0
IsRun seen s = ((seen ≡ true) ⊎ (s ≢ [])) × All (λ c. is_part c ≡ true) s

-- `[^\s@]+\.[^\s@]+` and the whole pattern.
pub record IsHost (seen : Bool) (s : Text) : Type 0 where
  pub before : Text
  pub after : Text
  pub whole : s ≡ before ++ b'.' ∷ after
  pub before_run : IsRun seen before
  pub after_run : IsRun false after

pub record IsAddress (seen : Bool) (s : Text) : Type 0 where
  pub user : Text
  pub host : Text
  pub whole : s ≡ user ++ b'@' ∷ host
  pub user_run : IsRun seen user
  pub host_ok : IsHost false host

IsRun-cons : (seen : Bool) (c : ℕ) (s : Text) → is_part c ≡ true → IsRun true s → IsRun seen (c ∷ s)
IsRun-cons seen c s e r = (inr (λ h. cc), (e, r.1))

parts_to_end-IsRun : (seen : Bool) (s : Text) → parts_to_end seen s ≡ true → IsRun seen s
unfolding parts_to_end
parts_to_end-IsRun seen [] h = (inl h, tt)
parts_to_end-IsRun seen (c ∷ s) h =
    IsRun-cons seen c s (ground arith) (parts_to_end-IsRun true s (ground arith))

IsRun-parts_to_end : (seen : Bool) (s : Text) → IsRun seen s → parts_to_end seen s ≡ true
unfolding parts_to_end
IsRun-parts_to_end seen [] r = elim (r.0) [ inl h ↦ h | inr f ↦ absurd (f refl) ]
IsRun-parts_to_end seen (c ∷ s) r = ground (arith, IsRun-parts_to_end true s (inl refl, r.1.1))

after_at-IsHost : (seen : Bool) (s : Text) → after_at seen s ≡ true → IsHost seen s
unfolding after_at
after_at-IsHost seen [] h = absurd (cc)
after_at-IsHost seen (c ∷ s) h = elim (Bool-cases (seen && (c == b'.' && parts_to_end false s))) [
  | inl e ↦ record {
    before = [];
    after = s;
    whole = ap (λ (k : ℕ). k ∷ s) (ground arith);
    before_run = (inl (ground arith), tt);
    after_run = parts_to_end-IsRun false s (ground arith);
  }
  | inr e ↦
      let rest : IsHost true s = after_at-IsHost true s (ground arith) in
      record {
        before = c ∷ rest.before;
        after = rest.after;
        whole = ap (λ t. c ∷ t) rest.whole;
        before_run = IsRun-cons seen c rest.before (ground arith) rest.before_run;
        after_run = rest.after_run;
      }
]

at_dot :
    (seen : Bool) (before after : Text)
    → IsRun seen before
    → IsRun false after
    → after_at seen (before ++ b'.' ∷ after) ≡ true
unfolding after_at
at_dot seen [] after r t = elim (r.0) [
  | inl e ↦ rw (e, IsRun-parts_to_end false after t) refl
  | inr f ↦ absurd (f refl)
]
at_dot seen (c ∷ before) after r t = ground (arith, at_dot true before after (inl refl, r.1.1) t)

email_from-IsAddress : (seen : Bool) (s : Text) → email_from seen s ≡ true → IsAddress seen s
unfolding email_from
email_from-IsAddress seen [] h = absurd (cc)
email_from-IsAddress seen (c ∷ s) h = elim (Bool-cases (seen && (c == b'@' && after_at false s))) [
  | inl e ↦ record {
    user = [];
    host = s;
    whole = ap (λ (k : ℕ). k ∷ s) (ground arith);
    user_run = (inl (ground arith), tt);
    host_ok = after_at-IsHost false s (ground arith);
  }
  | inr e ↦
      let rest : IsAddress true s = email_from-IsAddress true s (ground arith) in
      record {
        user = c ∷ rest.user;
        host = rest.host;
        whole = ap (λ t. c ∷ t) rest.whole;
        user_run = IsRun-cons seen c rest.user (ground arith) rest.user_run;
        host_ok = rest.host_ok;
      }
]

at_sign :
    (seen : Bool) (user host : Text)
    → IsRun seen user
    → after_at false host ≡ true
    → email_from seen (user ++ b'@' ∷ host) ≡ true
unfolding email_from
at_sign seen [] host r t = elim (r.0) [ inl e ↦ rw (e, t) refl | inr f ↦ absurd (f refl) ]
at_sign seen (c ∷ user) host r t = ground (arith, at_sign true user host (inl refl, r.1.1) t)

-- An email is accepted exactly when it is a user, an at sign, a host, a dot and an ending, where
-- each of the three is not empty and holds no white space and no at sign.
pub is_valid_email_iff : (e : Text) → (is_valid_email e ≡ true) ↔ IsAddress false e
unfolding is_valid_email
is_valid_email_iff e = (
  email_from-IsAddress false e,
  λ a.
      let host : after_at false a.host ≡ true =
        rw (a.host_ok.whole) (
          at_dot false a.host_ok.before a.host_ok.after a.host_ok.before_run a.host_ok.after_run) in
      rw (a.whole) (at_sign false a.user a.host a.user_run host),
)
