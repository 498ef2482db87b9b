-- ===== src/Home/Counts.antt =====
-- The figures and the lists of `buildHomeStats`, frontend/src/lib/home-stats.ts.
use min_demo.Base.{
  ℕ, ◌+◌, ◌≤◌, ◌≡◌, refl, String, Option, List, map, length, take, arith, Selects, nothing, takes,
  leaves,
}
use min_demo.Stats.{SfTask, SfHousehold, HomeStats}
use min_demo.Home.Config.{TriageThresholdConfig}
use min_demo.Home.Wording.{Env}
use min_demo.Home.Selection.{
  Book, book_of, open_tasks, completed_tasks, overdue_tasks, unsigned_tasks, unreviewed,
  recent_meetings,
}
use min_demo.Home.Selects.{
  IsCompleted, IsOpen, IsOverdue, IsUnsigned, IsRecentMeeting, IsUnreviewed, open_tasks-Selects,
  completed_tasks-Selects, overdue_tasks-Selects, unsigned_tasks-Selects, recent_meetings-Selects,
  unreviewed-Selects,
}
use min_demo.Home.Build.{
  build_home_stats, stats_of, task_to_item, review_to_item, unsigned_to_item, meeting_to_item,
  recent_item,
}

-- A figure counts the elements that satisfy the predicate, and a list has the entries of the first
-- of them.
pub record Shows {A B : Type 0} (P : A → Type 0) (entry : A → B) (most : ℕ) (xs : List A)
    (figure : ℕ) (entries : List B) : Type 0 where
  pub selected : List A
  pub selects : Selects P xs selected
  pub counted : figure ≡ length selected
  pub listed : entries ≡ map entry (take most selected)

-- What each figure counts and each list shows, of the tasks and households in scope; `done` is the
-- number of completed tasks.
pub record IsConsistent (v : Env) (url : String) (b : Book) (done : ℕ) (s : HomeStats)
    : Type 0 where
  pub open_shown : Shows IsOpen (task_to_item v url) 20 b.tasks s.open_tasks s.open_task_items
  pub overdue_shown :
      Shows (IsOverdue v) (task_to_item v url) 20 b.tasks s.overdue_tasks s.overdue_task_items
  pub ready_shown :
      Shows
        (IsUnreviewed b.tasks)
        (review_to_item v url)
        20
        b.households
        s.ready_for_review
        s.ready_for_review_items
  pub unsigned_shown :
      Shows IsUnsigned (unsigned_to_item v url) 20 b.tasks s.unsigned_envelopes s.unsigned_items
  pub meetings_shown :
      Shows
        (IsRecentMeeting v)
        (meeting_to_item v url)
        20
        b.tasks
        s.upcoming_meetings
        s.upcoming_meeting_items
  pub recent_shown : Shows IsCompleted (recent_item v url) 5 b.tasks done s.recent_items
  pub all_tasks : s.open_tasks + done ≡ length b.tasks
  pub overdue_le : s.overdue_tasks ≤ s.open_tasks
  pub unsigned_le : s.unsigned_envelopes ≤ s.open_tasks

module _ {A : Type 0} {P Q : A → Type 0} where
  -- A predicate and its negation share a list out.
  length-split :
      {xs ys zs : List A}
      → ((x : A) → P x → Q x → ⊥)
      → ((x : A) → ¬ P x → ¬ Q x → ⊥)
      → Selects P xs ys
      → Selects Q xs zs
      → length ys + length zs ≡ length xs
  length-split apart cover nothing nothing = omega arith
  length-split apart cover (takes x p h) (takes y q k) = absurd (apart x p q)
  length-split apart cover (takes x p h) (leaves y q k) =
      omega (arith, length-split apart cover h k)
  length-split apart cover (leaves x p h) (takes y q k) =
      omega (arith, length-split apart cover h k)
  length-split apart cover (leaves x p h) (leaves y q k) = absurd (cover x p q)

  length-weaker :
      {xs ys zs : List A}
      → ((x : A) → P x → Q x)
      → Selects P xs ys
      → Selects Q xs zs
      → length ys ≤ length zs
  length-weaker weaker nothing nothing = omega arith
  length-weaker weaker (takes x p h) (takes y q k) = omega (arith, length-weaker weaker h k)
  length-weaker weaker (takes x p h) (leaves y q k) = absurd (q (weaker x p))
  length-weaker weaker (leaves x p h) (takes y q k) = omega (arith, length-weaker weaker h k)
  length-weaker weaker (leaves x p h) (leaves y q k) = length-weaker weaker h k

unsigned-IsOpen : (t : SfTask) → IsUnsigned t → IsOpen t
unsigned-IsOpen t (status, subject) completed = absurd (cc)

shown :
    {A B : Type 0} {P : A → Type 0} {xs : List A} (entry : A → B) (most : ℕ) (ys : List A)
    → Selects P xs ys
    → Shows P entry most xs (length ys) (map entry (take most ys))
shown entry most ys h = record { selected = ys; selects = h; counted = refl; listed = refl }

module _ (v : Env) (tasks : List SfTask) (households : List SfHousehold) (url : String)
    (advisor : Option String) (config : Option TriageThresholdConfig) where
  -- Of the tasks and households in scope: the figures count exactly the open tasks, those of them
  -- whose due date has passed, the households that no compliance review names, the DocuSign tasks
  -- not started, and the meeting notes of the last seven days; each list has the entries of the
  -- first 20 that its figure counts, in order, and the recent list those of the first five completed
  -- tasks. Each task is counted as open or is completed, and the overdue tasks and the unsigned
  -- envelopes are no more than the open tasks.
  pub build_home_stats-IsConsistent :
      IsConsistent v url
        (book_of advisor households tasks)
        (length (completed_tasks v (book_of advisor households tasks)))
        (build_home_stats v tasks households url advisor config)
  unfolding build_home_stats stats_of
  build_home_stats-IsConsistent =
      let b = book_of advisor households tasks in
      let opened = open_tasks-Selects v b in
      record {
        open_shown = shown (task_to_item v url) 20 (open_tasks v b) opened;
        overdue_shown =
            shown (task_to_item v url) 20 (overdue_tasks v b) (overdue_tasks-Selects v b);
        ready_shown = shown (review_to_item v url) 20 (unreviewed v b) (unreviewed-Selects v b);
        unsigned_shown =
            shown (unsigned_to_item v url) 20 (unsigned_tasks v b) (unsigned_tasks-Selects v b);
        meetings_shown =
            shown (meeting_to_item v url) 20 (recent_meetings v b) (recent_meetings-Selects v b);
        recent_shown =
            shown (recent_item v url) 5 (completed_tasks v b) (completed_tasks-Selects v b);
        all_tasks =
            length-split (λ t o c. o c) (λ t n m. n (λ c. m c)) opened
              (completed_tasks-Selects v b);
        overdue_le = length-weaker (λ t o. o.0) (overdue_tasks-Selects v b) opened;
        unsigned_le = length-weaker unsigned-IsOpen (unsigned_tasks-Selects v b) opened;
      }
