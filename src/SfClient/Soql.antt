-- ===== src/SfClient/Soql.antt =====
-- `sanitizeSOQL` of frontend/src/lib/sf-client.ts over UTF-16 code units.
pub mod Escape
pub mod Literal
use min_demo.Base.{ℕ, Bool, not, List, [], ◌∷◌, ◌++◌, leb, ◌==◌, if◌then◌else◌, Text, filter, take}
use min_demo.SfClient.Ids.{Value, str, other}

abbrev pub backslash : ℕ
backslash = 92

abbrev pub quote : ℕ
quote = 39

abbrev pub percent : ℕ
percent = 37

abbrev pub underscore : ℕ
underscore = 95

-- `s.replace(/c/g, with)` for a single character.
unfoldable pub replace_char : ℕ → Text → Text → Text
replace_char c with' [] = []
replace_char c with' (x ∷ s) = (if x == c then with' else x ∷ []) ++ replace_char c with' s

-- `[\x00-\x1f]`.
abbrev pub is_control : ℕ → Bool
is_control c = leb c 31

unfoldable pub strip_controls : Text → Text
strip_controls s = filter (λ c. not (is_control c)) s

-- The chain of replacements, before the cut.
unfoldable pub escape_chain : Text → Text
escape_chain s = strip_controls (
    replace_char underscore (backslash ∷ underscore ∷ []) (
      replace_char percent (backslash ∷ percent ∷ []) (
        replace_char quote (backslash ∷ quote ∷ [])
          (replace_char backslash (backslash ∷ backslash ∷ []) s))))

abbrev pub max_length : ℕ
max_length = 200

unfoldable pub sanitize_soql : Value → Text
sanitize_soql (str s) = take max_length (escape_chain s)
sanitize_soql (other s) = []
