-- ===== src/SfClient/Soql/Escape.antt =====
-- The chain of replacements of `sanitizeSOQL` (frontend/src/lib/sf-client.ts) and one pass over the
-- text.
use min_demo.Base.{
  ℕ, ◌≡◌, refl, ap, sym, ◌∙◌, Bool, true, false, not, ◌||◌, [], ◌∷◌, ◌++◌, arith, ◌==◌,
  if◌then◌else◌, Text, filter, filter-append, append_assoc, Bool-cases, inl, inr, All,
}
use min_demo.SfClient.Soql.{
  backslash, quote, percent, underscore, replace_char, is_control, strip_controls, escape_chain,
}

unfoldable pub is_special : ℕ → Bool
is_special c = c == backslash || (c == quote || (c == percent || c == underscore))

-- One character escaped, by itself.
unfoldable pub escape_one : ℕ → Text
escape_one c = if is_special c then backslash ∷ c ∷ [] else c ∷ []

-- The reference: every character that is no control character, escaped once.
unfoldable pub escape_all : Text → Text
escape_all [] = []
escape_all (c ∷ s) = if is_control c then escape_all s else escape_one c ++ escape_all s

replace_char-append :
    (c : ℕ) (w s t : Text) → replace_char c w (s ++ t) ≡ replace_char c w s ++ replace_char c w t
unfolding replace_char
replace_char-append c w [] t = refl
replace_char-append c w (x ∷ s) t =
    ap (λ r. (if x == c then w else x ∷ []) ++ r) (replace_char-append c w s t)
    ∙ sym (append_assoc (if x == c then w else x ∷ []) (replace_char c w s) (replace_char c w t))

escape_chain-append : (s t : Text) → escape_chain (s ++ t) ≡ escape_chain s ++ escape_chain t
unfolding escape_chain strip_controls
escape_chain-append s t = simp (replace_char-append, filter-append)

escape_chain-one : (c : ℕ) → escape_chain (c ∷ []) ≡ (if is_control c then [] else escape_one c)
unfolding escape_chain strip_controls replace_char escape_one is_special
escape_chain-one c = ground arith

-- The four replacements one after the other, and the removal of control characters after them, do
-- what one pass does that drops each control character and puts one backslash before each
-- backslash, quote, percent sign and underscore; nothing is escaped twice.
pub escape_chain-eq-escape_all : (s : Text) → escape_chain s ≡ escape_all s
unfolding escape_all
escape_chain-eq-escape_all [] = unfold escape_chain strip_controls replace_char in refl
escape_chain-eq-escape_all (c ∷ s) =
    escape_chain-append (c ∷ []) s
    ∙ rw (escape_chain-one c, escape_chain-eq-escape_all s) (by_control (is_control c))
  where
    by_control :
        (b : Bool)
        → (if b then [] else escape_one c) ++ escape_all s
          ≡ (if b then escape_all s else escape_one c ++ escape_all s)
    by_control true = refl
    by_control false = refl

-- Reading escapes back: a backslash stands for the character behind it.
pub unescape : Bool → Text → Text
unescape escaped [] = []
unescape true (c ∷ s) = c ∷ unescape false s
unescape false (c ∷ s) =
    let plain = c ∷ unescape false s in
    let rest = unescape true s in if c == backslash then rest else plain

unescape-escape_one : (c : ℕ) (s : Text) → unescape false (escape_one c ++ s) ≡ c ∷ unescape false s
unfolding unescape escape_one is_special
unescape-escape_one c s = ground arith

unescape-escape_all :
    (s : Text) → unescape false (escape_all s) ≡ filter (λ c. not (is_control c)) s
unfolding escape_all
unescape-escape_all [] = unfold unescape in refl
unescape-escape_all (c ∷ s) = elim (Bool-cases (is_control c)) [
  | inl e ↦ rw e (unescape-escape_all s)
  | inr e ↦ rw e (unescape-escape_one c (escape_all s) ∙ ap (λ t. c ∷ t) (unescape-escape_all s))
]

-- Nothing but control characters is lost: reading the escapes back gives the input without them.
pub unescape-escape_chain :
    (s : Text) → unescape false (escape_chain s) ≡ filter (λ c. not (is_control c)) s
unescape-escape_chain s = rw (escape_chain-eq-escape_all s) (unescape-escape_all s)

abbrev pub NoControl : Text → Type 0
NoControl s = All (λ c. is_control c ≡ false) s

escape_one-NoControl :
    (c : ℕ) (s : Text) → is_control c ≡ false → NoControl s → NoControl (escape_one c ++ s)
unfolding escape_one
escape_one-NoControl c s e h = elim (Bool-cases (is_special c)) [
  | inl q ↦ rw q (refl, (e, h))
  | inr q ↦ rw q (e, h)
]

pub escape_all-NoControl : (s : Text) → NoControl (escape_all s)
unfolding escape_all
escape_all-NoControl [] = tt
escape_all-NoControl (c ∷ s) = elim (Bool-cases (is_control c)) [
  | inl e ↦ rw e (escape_all-NoControl s)
  | inr e ↦ rw e (escape_one-NoControl c (escape_all s) e (escape_all-NoControl s))
]
