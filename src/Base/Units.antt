-- ===== src/Base/Units.antt =====
-- Text as a list of UTF-16 code units, for the code that walks its characters.
use Prim.Native.Char.{code}
use Prim.Native.Nat.{ℕ}
use Prim.Native.String.{String}
use mathlib.Core.Bool.{Bool, true, false, ◌&&◌, ◌||◌}
use mathlib.Core.List.{List, [], ◌∷◌, ◌++◌}
use min_demo.Base.Tests.{◌==◌, leb, if◌then◌else◌}

abbrev pub Text : Type 0
Text = List ℕ

-- The code units of a literal. Every literal of the model lies in the basic plane, where a code
-- point is one unit.
abbrev pub units : String → Text
units String.[] = []
units (String.◌∷◌ c s) = code c ∷ units s

-- `s.startsWith(prefix)`.
abbrev pub has_prefix : Text → Text → Bool
has_prefix [] s = true
has_prefix (c ∷ p) [] = false
has_prefix (c ∷ p) (d ∷ s) = c == d && has_prefix p s

-- `s.includes(piece)`.
abbrev pub includes : Text → Text → Bool
includes piece [] = has_prefix piece []
includes piece (c ∷ s) = has_prefix piece (c ∷ s) || includes piece s

abbrev pub text_eq : Text → Text → Bool
text_eq [] [] = true
text_eq [] (d ∷ t) = false
text_eq (c ∷ s) [] = false
text_eq (c ∷ s) (d ∷ t) = c == d && text_eq s t

-- `parts.join(" ")`.
abbrev pub join_space : List Text → Text
join_space [] = []
join_space (t ∷ []) = t
join_space (t ∷ u ∷ ts) = t ++ b' ' ∷ join_space (u ∷ ts)

-- `\s` of a regular expression.
abbrev pub is_space : ℕ → Bool
is_space c =
    (leb 9 c && leb c 13)
    || (c == 32
        || (c == 160
            || (c == 5760
                || ((leb 8192 c && leb c 8202)
                    || (c == 8232
                        || (c == 8233
                            || (c == 8239 || (c == 8287 || (c == 12288 || c == 65279)))))))))

-- `\S*` at the start of the text.
abbrev pub take_word : Text → Text
take_word [] = []
take_word (c ∷ s) = if is_space c then [] else c ∷ take_word s
