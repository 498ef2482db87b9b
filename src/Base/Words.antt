-- ===== src/Base/Words.antt =====
-- Native strings, walked by their characters.
use Prim.Native.Char.{code}
use Prim.Native.String
use Prim.Native.String.{String}
use mathlib.Core.Bool.{Bool, true, false, ◌&&◌}
use mathlib.Core.Option.{Option, none, some}
use min_demo.Base.Tests.{if◌then◌else◌, ◌==◌}
use min_demo.Base.Units.{is_space, includes, units}

abbrev pub is_empty : String → Bool
is_empty String.[] = true
is_empty (String.◌∷◌ c s) = false

abbrev pub trim_start : String → String
trim_start String.[] = ""
trim_start (String.◌∷◌ c s) = if is_space (code c) then trim_start s else String.◌∷◌ c s

abbrev pub trim_end : String → String
trim_end String.[] = ""
trim_end (String.◌∷◌ c s) =
    let rest = trim_end s in if is_space (code c) && is_empty rest then "" else String.◌∷◌ c rest

-- `s.trim()`.
unfoldable pub trim : String → String
trim s = trim_end (trim_start s)

-- `s.includes(piece)` of two strings.
abbrev pub contains : String → String → Bool
contains s piece = includes (units piece) (units s)

-- The rest of the text behind a prefix, if it begins with it.
unfoldable pub behind : String → String → Option String
behind String.[] s = some s
behind (String.◌∷◌ c p) String.[] = none
behind (String.◌∷◌ c p) (String.◌∷◌ d s) = if code c == code d then behind p s else none

-- `s.replace(piece, by)` of a string: the first occurrence.
unfoldable pub replace_first : String → String → String → String
replace_first piece by String.[] = elim (behind piece "") [
  | none ↦ ""
  | some rest ↦ String.◌++◌ by rest
]
replace_first piece by (String.◌∷◌ c s) =
    let skipped = String.◌∷◌ c (replace_first piece by s) in
    elim (behind piece (String.◌∷◌ c s)) [ none ↦ skipped | some rest ↦ String.◌++◌ by rest ]
