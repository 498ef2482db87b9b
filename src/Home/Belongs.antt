-- ===== src/Home/Belongs.antt =====
-- The book of an advisor of frontend/src/lib/home-stats.ts: which households belong to it.
use mathlib.Core.List.{Memᴰ}
use min_demo.Base.{
  ◌⊎◌, ◌≡◌, refl, ap, String, true, false, Option, none, some, List, [], ◌∷◌, str_eq, str_eq_iff,
  present, Bool-cases, inl, inr, arith,
}
use min_demo.Stats.{SfTask, SfHousehold}
use min_demo.Home.Wording.{get_household_advisor}
use min_demo.Home.Selection.{member, advised_by, advisor_ids, in_book}

module _ (advisor : String) (households : List SfHousehold) where
  -- The id is that of a household which the advisor is assigned to.
  abbrev pub Belongs : Option String → Type 0
  Belongs o =
      (h : SfHousehold) × Memᴰ h households
      × (o ≡ some h.id)
      × (get_household_advisor h.description ≡ some advisor)

  abbrev pub TaskOf : SfTask → Type 0
  TaskOf t = Belongs t.household_id × (present t.household_id ≡ true)

  abbrev pub HouseholdOf : SfHousehold → Type 0
  HouseholdOf h = Belongs (some h.id)

  -- The household is of the book, or there is none.
  abbrev pub BelongsIfAny : Option String → Type 0
  BelongsIfAny o = (present o ≡ false) ⊎ Belongs o

advised_by-eq :
    (advisor : String) (h : SfHousehold)
    → advised_by advisor h ≡ true
    → get_household_advisor h.description ≡ some advisor
unfolding advised_by
advised_by-eq advisor h e = by_name (get_household_advisor h.description) e
  where
    by_name :
        (o : Option String)
        → elim o [ none ↦ false | some a ↦ str_eq a advisor ] ≡ true
        → o ≡ some advisor
    by_name none e = absurd (cc)
    by_name (some a) e = ap some ((str_eq_iff a advisor).0 e)

Belongs-later :
    (advisor : String) (h : SfHousehold) (hs : List SfHousehold) (o : Option String)
    → Belongs advisor hs o
    → Belongs advisor (h ∷ hs) o
Belongs-later advisor h hs o (g, m, p, q) = (g, Memᴰ.tail m, p, q)

pub member-advisor_ids :
    (advisor : String) (hs : List SfHousehold) (id : String)
    → member id (advisor_ids advisor hs) ≡ true
    → Belongs advisor hs (some id)
unfolding advisor_ids
member-advisor_ids advisor [] id e = absurd (cc)
member-advisor_ids advisor (h ∷ hs) id e = elim (Bool-cases (advised_by advisor h)) [
  | inl a ↦ elim (Bool-cases (str_eq id h.id)) [
    | inl s ↦ (h, Memᴰ.head refl, ap some ((str_eq_iff id h.id).0 s), advised_by-eq advisor h a)
    | inr s ↦
        Belongs-later advisor h hs (some id) (member-advisor_ids advisor hs id (rw (a, s) at e))
  ]
  | inr a ↦ Belongs-later advisor h hs (some id) (member-advisor_ids advisor hs id (rw a at e))
]

pub in_book-Belongs :
    (advisor : String) (hs : List SfHousehold) (o : Option String)
    → in_book (advisor_ids advisor hs) o ≡ true
    → Belongs advisor hs o × (present o ≡ true)
in_book-Belongs advisor hs none e = absurd (cc)
in_book-Belongs advisor hs (some id) e =
    (member-advisor_ids advisor hs id (ground arith), ground arith)
