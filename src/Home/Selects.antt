-- ===== src/Home/Selects.antt =====
-- What the filters of `buildHomeStats`, frontend/src/lib/home-stats.ts, select, in words of their own.
use mathlib.Core.List.{Memᴰ}
use min_demo.Base.{
  ℕ, ◌+◌, ◌*◌, ◌≤◌, ◌<◌, ◌≡◌, ◌≢◌, ◌↔◌, refl, ap, sym, ◌∙◌, String, Bool, true, false, not, ◌&&◌,
  ◌||◌, Option, none, some, List, [], ◌∷◌, ◌++◌, filter, any, str_eq, str_eq_iff, truthy, arith,
  Bool-cases, inl, inr, subst, Selects, filter-Selects, filter_twice, any_iff, any-filter,
}
use min_demo.Stats.{SfTask, SfHousehold}
use min_demo.Home.Subjects.{is_compliance_review, is_meeting_note, is_docusign_send}
use min_demo.Home.Wording.{Env, ms_day}
use min_demo.Home.Selection.{
  Book, is_completed, is_overdue, is_unsigned, this_week, before, not_older, member, add_name,
  reviewed_from, reviewed_names, open_tasks, completed_tasks, overdue_tasks, unsigned_tasks,
  recent_meetings, unreviewed,
}

-- The date can be read and its time satisfies the predicate.
abbrev pub At : Env → String → (ℕ → Type 0) → Type 0
At v date P = (n : ℕ) × (v.time_of date ≡ some n) × P n

abbrev pub IsCompleted : SfTask → Type 0
IsCompleted t = t.status ≡ "Completed"

abbrev pub IsOpen : SfTask → Type 0
IsOpen t = t.status ≢ "Completed"

abbrev pub IsOverdue : Env → SfTask → Type 0
IsOverdue v t = IsOpen t × (t.due_date ≢ "") × At v t.due_date (λ n. n < v.now)

abbrev pub IsUnsigned : SfTask → Type 0
IsUnsigned t = (t.status ≡ "Not Started") × (is_docusign_send t.subject ≡ true)

abbrev pub IsRecentMeeting : Env → SfTask → Type 0
IsRecentMeeting v t =
    (is_meeting_note t.subject ≡ true) × At v t.created_at (λ n. v.now ≤ n + 7 * ms_day)

-- A compliance review names the household.
abbrev pub Reviews : String → SfTask → Type 0
Reviews name t =
    (is_compliance_review t.subject ≡ true) × (t.household_name ≡ some name) × (name ≢ "")

abbrev pub IsUnreviewed : List SfTask → SfHousehold → Type 0
IsUnreviewed tasks h = ¬ ((t : SfTask) × Memᴰ t tasks × Reviews h.name t)

IsCompleted-iff : (t : SfTask) → (is_completed t ≡ true) ↔ IsCompleted t
IsCompleted-iff t = str_eq_iff t.status "Completed"

IsOpen-iff : (t : SfTask) → (not (is_completed t) ≡ true) ↔ IsOpen t
IsOpen-iff t = (
  λ h e. ground (arith, h, (IsCompleted-iff t).1 e),
  λ h. elim (Bool-cases (is_completed t)) [
    | inl e ↦ absurd (h ((IsCompleted-iff t).0 e))
    | inr e ↦ rw e refl
  ],
)

truthy_iff : (s : String) → (truthy s ≡ true) ↔ (s ≢ "")
truthy_iff s = (
  λ h e. ground (arith, h, (str_eq_iff s "").1 e),
  λ h. elim (Bool-cases (str_eq s "")) [
    | inl e ↦ absurd (h ((str_eq_iff s "").0 e))
    | inr e ↦ rw e refl
  ],
)

before_iff : (o : Option ℕ) (now : ℕ) → (before o now ≡ true) ↔ ((n : ℕ) × (o ≡ some n) × (n < now))
before_iff none now = (λ h. absurd (cc), λ (n, e, h). absurd (cc))
before_iff (some m) now = (
  λ h. (m, refl, ground (arith, h)),
  λ (n, e, h). let same : m ≡ n = cc in ground (arith, h, same),
)

not_older_iff :
    (o : Option ℕ) (now : ℕ)
    → (not_older now o ≡ true) ↔ ((n : ℕ) × (o ≡ some n) × (now ≤ n + 7 * ms_day))
not_older_iff none now = (λ h. absurd (cc), λ (n, e, h). absurd (cc))
not_older_iff (some m) now = (
  λ h. (m, refl, ground (arith, h)),
  λ (n, e, h). let same : m ≡ n = cc in ground (arith, h, same),
)

both : (a b : Bool) → (a && b) ≡ true → (a ≡ true) × (b ≡ true)
both a b h = (ground (arith, h), ground (arith, h))

IsOverdue-iff :
    (v : Env) (t : SfTask) → ((not (is_completed t) && is_overdue v t) ≡ true) ↔ IsOverdue v t
unfolding is_overdue
IsOverdue-iff v t = (
  λ h.
      let (open_, due) = both (not (is_completed t)) _ h in
      let (given, past) = both (truthy t.due_date) _ due in
      (
        (IsOpen-iff t).0 open_,
        (truthy_iff t.due_date).0 given,
        (before_iff (v.time_of t.due_date) v.now).0 past,
      ),
  λ (open_, given, past).
      rw ((IsOpen-iff t).1 open_, (truthy_iff t.due_date).1 given)
        ((before_iff (v.time_of t.due_date) v.now).1 past),
)

IsUnsigned-iff : (t : SfTask) → (is_unsigned t ≡ true) ↔ IsUnsigned t
unfolding is_unsigned
IsUnsigned-iff t = (
  λ h.
      let (status, subject) = both (str_eq t.status "Not Started") _ h in
      ((str_eq_iff t.status "Not Started").0 status, subject),
  λ (status, subject). rw ((str_eq_iff t.status "Not Started").1 status) subject,
)

IsRecentMeeting-iff :
    (v : Env) (t : SfTask)
    → ((is_meeting_note t.subject && this_week v t) ≡ true) ↔ IsRecentMeeting v t
unfolding this_week
IsRecentMeeting-iff v t = (
  λ h.
      let (note, recent) = both (is_meeting_note t.subject) _ h in
      (note, (not_older_iff (v.time_of t.created_at) v.now).0 recent),
  λ (note, recent). rw note ((not_older_iff (v.time_of t.created_at) v.now).1 recent),
)

abbrev names_it : String → Option String → Bool
names_it name none = false
names_it name (some m) = truthy m && str_eq name m

member-snoc :
    (n m : String) (ns : List String) → member n (ns ++ m ∷ []) ≡ (member n ns || str_eq n m)
member-snoc n m [] = ground arith
member-snoc n m (k ∷ ns) = ground (arith, member-snoc n m ns)

member-add_name :
    (n : String) (o : Option String) (ns : List String)
    → member n (add_name o ns) ≡ (member n ns || names_it n o)
member-add_name n none ns = ground arith
member-add_name n (some m) ns = elim (Bool-cases (truthy m)) [
  | inl e ↦ elim (Bool-cases (member m ns)) [
    | inl f ↦ elim (Bool-cases (str_eq n m)) [
      | inl g ↦
          let here : member n ns ≡ true = ap (λ k. member k ns) ((str_eq_iff n m).0 g) ∙ f in
          rw (e, f, g, here) refl
      | inr g ↦ rw (e, f, g) (ground arith)
    ]
    | inr f ↦ rw (e, f) (member-snoc n m ns)
  ]
  | inr e ↦ rw e (ground arith)
]

member-reviewed_from :
    (n : String) (ns : List String) (ts : List SfTask)
    → member n (reviewed_from ns ts)
      ≡ (member n ns || any (λ (t : SfTask). names_it n t.household_name) ts)
unfolding reviewed_from
member-reviewed_from n ns [] = ground arith
member-reviewed_from n ns (t ∷ ts) = ground (
  arith,
  member-reviewed_from n (add_name t.household_name ns) ts,
  member-add_name n t.household_name ns,
)

names_it_iff : (n : String) (o : Option String) → (names_it n o ≡ true) ↔ ((o ≡ some n) × (n ≢ ""))
names_it_iff n none = (λ h. absurd (cc), λ (e, given). absurd (cc))
names_it_iff n (some m) = (
  λ h.
      let (given, e) = both (truthy m) (str_eq n m) h in
      let same : n ≡ m = (str_eq_iff n m).0 e in
      (ap some (sym same), subst (λ k. k ≢ "") (sym same) ((truthy_iff m).0 given)),
  λ (e, given).
      let same : m ≡ n = cc in rw same (rw ((truthy_iff n).1 given) ((str_eq_iff n n).1 refl)),
)

module _ (tasks : List SfTask) where
  abbrev reviews : String → SfTask → Bool
  reviews name t = is_compliance_review t.subject && names_it name t.household_name

  IsUnreviewed-iff :
      (h : SfHousehold)
      → (not (
            member h.name
              (reviewed_from [] (filter (λ (t : SfTask). is_compliance_review t.subject) tasks)))
          ≡ true)
        ↔ IsUnreviewed tasks h
  IsUnreviewed-iff h =
      let found : member h.name
            (reviewed_from [] (filter (λ (t : SfTask). is_compliance_review t.subject) tasks))
          ≡ any (reviews h.name) tasks =
        member-reviewed_from h.name []
          (filter (λ (t : SfTask). is_compliance_review t.subject) tasks)
        ∙ any-filter (λ (t : SfTask). names_it h.name t.household_name)
            (λ (t : SfTask). is_compliance_review t.subject) tasks in
      rw found (
        λ none_found (t, m, (review, named, given)).
            let there : any (reviews h.name) tasks ≡ true =
              (any_iff (reviews h.name) tasks).1
                (t, m, rw (review, (names_it_iff h.name t.household_name).1 (named, given)) refl) in
            absurd (ground (arith, there, none_found)),
        λ none_there. elim (Bool-cases (any (reviews h.name) tasks)) [
          | inl e ↦
              let (t, m, both_hold) = (any_iff (reviews h.name) tasks).0 e in
              let (review, named) = both (is_compliance_review t.subject) _ both_hold in
              let (same, given) = (names_it_iff h.name t.household_name).0 named in
              absurd (none_there (t, m, (review, same, given)))
          | inr e ↦ rw e refl
        ],
      )

module _ (v : Env) (b : Book) where
  pub open_tasks-Selects : Selects IsOpen b.tasks (open_tasks v b)
  unfolding open_tasks
  open_tasks-Selects = filter-Selects IsOpen _ IsOpen-iff b.tasks

  pub completed_tasks-Selects : Selects IsCompleted b.tasks (completed_tasks v b)
  unfolding completed_tasks
  completed_tasks-Selects = filter-Selects IsCompleted is_completed IsCompleted-iff b.tasks

  pub overdue_tasks-Selects : Selects (IsOverdue v) b.tasks (overdue_tasks v b)
  unfolding overdue_tasks open_tasks
  overdue_tasks-Selects =
      subst (Selects (IsOverdue v) b.tasks)
        (sym (filter_twice (λ (t : SfTask). not (is_completed t)) (is_overdue v) b.tasks))
        (filter-Selects (IsOverdue v) _ (IsOverdue-iff v) b.tasks)

  pub unsigned_tasks-Selects : Selects IsUnsigned b.tasks (unsigned_tasks v b)
  unfolding unsigned_tasks
  unsigned_tasks-Selects = filter-Selects IsUnsigned is_unsigned IsUnsigned-iff b.tasks

  pub recent_meetings-Selects : Selects (IsRecentMeeting v) b.tasks (recent_meetings v b)
  unfolding recent_meetings
  recent_meetings-Selects =
      subst (Selects (IsRecentMeeting v) b.tasks)
        (sym (filter_twice (λ (t : SfTask). is_meeting_note t.subject) (this_week v) b.tasks))
        (filter-Selects (IsRecentMeeting v) _ (IsRecentMeeting-iff v) b.tasks)

  pub unreviewed-Selects : Selects (IsUnreviewed b.tasks) b.households (unreviewed v b)
  unfolding unreviewed reviewed_names
  unreviewed-Selects =
      filter-Selects (IsUnreviewed b.tasks) _ (IsUnreviewed-iff b.tasks) b.households
