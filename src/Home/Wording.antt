-- ===== src/Home/Wording.antt =====
-- The wording helpers of frontend/src/lib/home-stats.ts, and what the figures need of the platform.
-- A time is JavaScript's time value moved up so that the earliest date there is stands at 0.
use Prim.Native.Char.{code}
use min_demo.Base.{
  ℕ, ◌-◌, ◌+◌, ◌/◌, String, Bool, false, ◌&&◌, ◌||◌, Option, none, some, if◌then◌else◌, contains,
  truthy, replace_first, trim, ◌<>◌, show_ℕ, leb, ◌==◌, get_or_else, is_space,
}
use min_demo.Home.Subjects.{compliance_review, meeting_note, docusign_send, follow_up}

-- The clock, the date functions and the case mapping of the platform; `percent a b` is
-- `Math.round((a / b) * 100)`, which is computed in floating point.
pub record Env : Type 0 where
  pub now : ℕ
  pub time_of : String → Option ℕ
  pub format_date : String → String
  pub iso : ℕ → String
  pub short_date : ℕ → String
  pub same_day : String → Bool
  pub percent : ℕ → ℕ → ℕ
  pub upper : String → String

-- A moved time value of 1 January 1970, and a day.
abbrev pub epoch : ℕ
epoch = 8640000000000000

abbrev pub ms_day : ℕ
ms_day = 86400000

abbrev at_least_one : ℕ → ℕ
at_least_one n = if leb n 1 then 1 else n

abbrev days_between : ℕ → Option ℕ → Option ℕ
days_between now none = none
days_between now (some t) = some (at_least_one ((now - t) / ms_day))

-- `daysSince(date)`: 1 at least, `none` for NaN.
unfoldable pub days_since : Env → String → Option ℕ
days_since v date = days_between v.now (v.time_of date)

-- A number in a template literal, and its comparison with a bound.
abbrev pub show_days : Option ℕ → String
show_days none = "NaN"
show_days (some n) = show_ℕ n

abbrev pub at_least : Option ℕ → ℕ → Bool
at_least none k = false
at_least (some n) k = leb k n

abbrev pub more_than : Option ℕ → ℕ → Bool
more_than none k = false
more_than (some n) k = leb (k + 1) n

abbrev pub or_empty : Option String → String
or_empty name = get_or_else name ""

-- `(householdName || "").replace(" Household", "")`.
unfoldable pub hh_short : Option String → String
hh_short name = replace_first " Household" "" (or_empty name)

-- `householdName || "___"`.
abbrev pub or_blank : Option String → String
or_blank none = "___"
or_blank (some n) = if truthy n then n else "___"

-- `s ? text : ""`.
abbrev pub when : String → String → String
when s text = if truthy s then text else ""

-- A DocuSign subject without its prefix and the household's name.
unfoldable pub docusign_rest : String → Option String → String
docusign_rest subject name =
    trim (replace_first (or_blank name) "" (replace_first (docusign_send <> " — ") "" subject))

unfoldable pub humanize_subject : String → Option String → String
humanize_subject subject name =
    let hh = hh_short name in
    if contains subject docusign_send
    then trim ("DocuSign: " <> (when hh (hh <> " ") <> docusign_rest subject name))
    else if contains subject compliance_review
    then replace_first compliance_review "Compliance review" subject
    else if contains subject meeting_note
    then replace_first meeting_note "Meeting note" subject
    else if contains subject follow_up
    then replace_first follow_up "Follow-up" subject
    else subject

unfoldable pub describe_activity : (String → String) → String → Option String → String
describe_activity upper subject name =
    let hh = hh_short name in
    let lead = when hh (hh <> ": ") in
    let doc = docusign_rest subject name in
    let detail = trim (replace_first (follow_up <> ": ") "" subject) in
    if contains subject compliance_review
    then lead
      <> ("Compliance review "
          <> (if contains (upper subject) "PASSED" then "passed" else "flagged"))
    else if contains subject meeting_note
    then lead <> "Meeting notes recorded"
    else if contains subject docusign_send
    then lead <> ("DocuSign completed" <> when doc (" — " <> doc))
    else if contains subject follow_up
    then lead <> (detail <> " completed")
    else humanize_subject subject name

-- A letter without its case, of the ASCII letters, for the flag `i`.
abbrev fold : ℕ → ℕ
fold c = if leb b'A' c && leb c b'Z' then c + 32 else c

-- The rest of the text behind the label, whatever its case.
unfoldable pub behind_label : String → String → Option String
behind_label String.[] s = some s
behind_label (String.◌∷◌ c p) String.[] = none
behind_label (String.◌∷◌ c p) (String.◌∷◌ d s) =
    if fold (code c) == fold (code d) then behind_label p s else none

-- What `.` does not match.
abbrev is_line_end : ℕ → Bool
is_line_end c = c == 10 || (c == 13 || (c == 8232 || c == 8233))

unfoldable pub take_line : String → String
take_line String.[] = ""
take_line (String.◌∷◌ c s) =
    let rest = String.◌∷◌ c (take_line s) in if is_line_end (code c) then "" else rest

-- `\s*(.+)` and `trim()`. If only white space is left, `\s*` gives some of it back: the name is
-- empty, unless all of it ends lines.
unfoldable pub advisor_behind : String → Option String
advisor_behind String.[] = none
advisor_behind (String.◌∷◌ c s) =
    let later = advisor_behind s in
    let blank = if is_line_end (code c) then none else some "" in
    if is_space (code c)
    then elim later [ none ↦ blank | some name ↦ some name ]
    else some (trim (take_line (String.◌∷◌ c s)))

unfoldable pub find_advisor : String → Option String
find_advisor String.[] = none
find_advisor (String.◌∷◌ c s) =
    let later = find_advisor s in
    elim (behind_label "Assigned Advisor:" (String.◌∷◌ c s)) [
      | none ↦ later
      | some rest ↦ elim (advisor_behind rest) [ none ↦ later | some name ↦ some name ]
    ]

unfoldable pub get_household_advisor : Option String → Option String
get_household_advisor none = none
get_household_advisor (some desc) = if truthy desc then find_advisor desc else none
