-- ===== src/SfClient/Soql/Literal.antt =====
-- A sanitised text between the quotes of a SOQL string literal.
use min_demo.Base.{
  ℕ, ◌+◌, ◌≤◌, ◌≡◌, refl, ap, ◌∙◌, Bool, true, false, Option, none, some, [], ◌∷◌, ◌++◌, arith,
  ◌==◌, if◌then◌else◌, Text, take, length, take_of_le, append_assoc, Bool-cases, inl, inr, All,
  length-take,
}
use Prim.Native.Nat.{zero, suc}
use min_demo.SfClient.Ids.{Value, str, other}
use min_demo.SfClient.Soql.{backslash, quote, is_control, escape_chain, sanitize_soql, max_length}
use min_demo.SfClient.Soql.Escape.{
  escape_one, escape_all, is_special, escape_chain-eq-escape_all, NoControl, escape_all-NoControl,
}

-- How Salesforce reads a string literal behind its opening quote: a backslash takes the next
-- character with it, and the first other quote closes. The result is what follows the literal,
-- `none` where it is not closed.
pub close_literal : Bool → Text → Option Text
close_literal escaped [] = none
close_literal true (c ∷ s) = close_literal false s
close_literal false (c ∷ s) =
    let rest = close_literal (c == backslash) s in if c == quote then some s else rest

close_literal-escape_one :
    (c : ℕ) (s : Text) → close_literal false (escape_one c ++ s) ≡ close_literal false s
unfolding close_literal escape_one is_special
close_literal-escape_one c s = ground arith

close_literal-escape_all :
    (s rest : Text) → close_literal false (escape_all s ++ quote ∷ rest) ≡ some rest
unfolding escape_all
close_literal-escape_all [] rest = unfold close_literal in refl
close_literal-escape_all (c ∷ s) rest = elim (Bool-cases (is_control c)) [
  | inl e ↦ rw e (close_literal-escape_all s rest)
  | inr e ↦ rw e (
      rw (append_assoc (escape_one c) (escape_all s) (quote ∷ rest)) (
        close_literal-escape_one c (escape_all s ++ quote ∷ rest)
        ∙ close_literal-escape_all s rest))
]

-- Where the escaped text is no longer than the limit, it stays inside the literal: put between
-- quotes, the literal ends at the quote that the query closes it with, whatever follows.
pub sanitize_soql_contained :
    (s rest : Text)
    → length (escape_all s) ≤ max_length
    → close_literal false (sanitize_soql (str s) ++ quote ∷ rest) ≡ some rest
unfolding sanitize_soql
sanitize_soql_contained s rest h =
    rw (escape_chain-eq-escape_all s)
      (rw (take_of_le max_length (escape_all s) h) (close_literal-escape_all s rest))

close_literal-one :
    (c : ℕ) (t : Text)
    → (is_control c ≡ false) × (is_special c ≡ false)
    → close_literal false (c ∷ t) ≡ close_literal false t
unfolding close_literal is_special
close_literal-one c t h = ground arith

take-NoControl : (n : ℕ) (s : Text) → NoControl s → NoControl (take n s)
take-NoControl zero s h = tt
take-NoControl (suc n) [] h = tt
take-NoControl (suc n) (c ∷ s) h = (h.0, take-NoControl n s h.1)

-- Whatever the input, a string or not, the result is at most 200 code units long and holds no
-- control character.
pub sanitize_soql_bounds :
    (v : Value) → (length (sanitize_soql v) ≤ max_length) × NoControl (sanitize_soql v)
unfolding sanitize_soql
sanitize_soql_bounds (str s) = (
  omega (arith, length-take max_length (escape_chain s)),
  take-NoControl max_length (escape_chain s)
      (rw (escape_chain-eq-escape_all s) (escape_all-NoControl s)),
)
sanitize_soql_bounds (other s) = (omega arith, tt)

-- A character that is neither removed nor escaped.
abbrev pub IsPlain : ℕ → Type 0
IsPlain c = (is_control c ≡ false) × (is_special c ≡ false)

escape_all-plain : (s t : Text) → All IsPlain s → escape_all (s ++ t) ≡ s ++ escape_all t
unfolding escape_all escape_one
escape_all-plain [] t h = refl
escape_all-plain (c ∷ s) t h = rw (h.0.0) (rw (h.0.1) (ap (λ r. c ∷ r) (escape_all-plain s t h.1)))

take-append : (s t : Text) (k n : ℕ) → n ≡ length s + k → take n (s ++ t) ≡ s ++ take k t
take-append [] t k n h = let e : n ≡ k = omega arith in rw e
take-append (c ∷ s) t k n h =
    let e : n ≡ suc (length s + k) = omega arith in
    rw e (ap (λ r. c ∷ r) (take-append s t k (length s + k) refl))

close_literal-plain :
    (s t : Text) → All IsPlain s → close_literal false (s ++ t) ≡ close_literal false t
close_literal-plain [] t h = refl
close_literal-plain (c ∷ s) t (p, h) = close_literal-one c (s ++ t) p ∙ close_literal-plain s t h

escape_all-special :
    (c : ℕ) (t : Text) → is_special c ≡ true → take 1 (escape_all (c ∷ t)) ≡ backslash ∷ []
unfolding escape_all escape_one is_special
escape_all-special c t h = ground arith

sanitize_soql_cut_text :
    (s t : Text) (c : ℕ)
    → All IsPlain s
    → length s ≡ 199
    → is_special c ≡ true
    → sanitize_soql (str (s ++ c ∷ t)) ≡ s ++ backslash ∷ []
unfolding sanitize_soql
sanitize_soql_cut_text s t c plain len special = rw (escape_chain-eq-escape_all (s ++ c ∷ t)) (
    rw (escape_all-plain s (c ∷ t) plain) (
      take-append s (escape_all (c ∷ t)) 1 max_length (omega arith)
      ∙ ap (λ r. s ++ r) (escape_all-special c t special)))

-- The cut at 200 can fall between a backslash and the character that it escapes: after 199 plain
-- characters and one that is escaped, such as a quote, the result ends in a bare backslash. Put
-- between quotes it takes the closing quote with it, and the literal runs on into what follows.
pub sanitize_soql_runs_on :
    (s t rest : Text) (c : ℕ)
    → All IsPlain s
    → length s ≡ 199
    → is_special c ≡ true
    → close_literal false (sanitize_soql (str (s ++ c ∷ t)) ++ quote ∷ rest)
      ≡ close_literal false rest
sanitize_soql_runs_on s t rest c plain len special =
    rw (sanitize_soql_cut_text s t c plain len special) (
      rw (append_assoc s (backslash ∷ []) (quote ∷ rest))
        (close_literal-plain s (backslash ∷ quote ∷ rest) plain ∙ unfold close_literal in refl))
