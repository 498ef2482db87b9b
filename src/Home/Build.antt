-- ===== src/Home/Build.antt =====
-- `buildHomeStats` of frontend/src/lib/home-stats.ts, put together.
use min_demo.Base.{
  String, Option, none, some, List, map, length, take, ◌<>◌, if◌then◌else◌, get_or_else, truthy,
}
use min_demo.Stats.{SfTask, SfHousehold, HomeStats, StatDetailItem, RecentItem}
use min_demo.Home.Subjects.{classify_task, task_type_text}
use min_demo.Home.Config.{TriageThresholdConfig, default_triage_config}
use min_demo.Home.Wording.{
  Env, days_since, show_days, hh_short, humanize_subject, describe_activity, docusign_rest,
}
use min_demo.Home.Selection.{
  Book, book_of, open_tasks, completed_tasks, overdue_tasks, unsigned_tasks, recent_meetings,
  unreviewed,
}
use min_demo.Home.Insights.{top_insights}
use min_demo.Home.Triage.{top_triage}

-- `name || undefined`.
abbrev pub or_undefined : Option String → Option String
or_undefined none = none
or_undefined (some s) = if truthy s then some s else none

module _ (v : Env) (url : String) where
  -- `dueDate ? formatDate(dueDate) : ""`.
  abbrev due_text : SfTask → String
  due_text t = if truthy t.due_date then v.format_date t.due_date else ""

  unfoldable pub task_to_item : SfTask → StatDetailItem
  task_to_item t = record {
    label = humanize_subject t.subject t.household_name;
    sub =
        hh_short t.household_name
        <> (if truthy t.due_date then " · Due " <> v.format_date t.due_date else "");
    url = url <> ("/" <> t.id);
    household_id = t.household_id;
    household_name = t.household_name;
    priority = some t.priority;
    due = some (due_text t);
    item_type = none;
    days_outstanding = none;
  }

  -- An item with a label, a line below it and an address only.
  abbrev plain_item : String → String → String → StatDetailItem
  plain_item label sub id = record {
    label = label;
    sub = sub;
    url = url <> ("/" <> id);
    household_id = none;
    household_name = none;
    priority = none;
    due = none;
    item_type = none;
    days_outstanding = none;
  }

  unfoldable pub review_to_item : SfHousehold → StatDetailItem
  review_to_item h =
      let base : StatDetailItem =
        plain_item h.name ("Created " <> (v.format_date h.created_at <> " · No compliance review"))
          h.id in
      record base { household_id = some h.id; household_name = some h.name }

  unfoldable pub unsigned_to_item : SfTask → StatDetailItem
  unsigned_to_item t =
      let days = days_since v t.created_at in
      let base : StatDetailItem =
        plain_item
          (hh_short t.household_name
            <> (" "
                <> (docusign_rest t.subject t.household_name
                    <> (" — DocuSign outstanding " <> (show_days days <> " days")))))
          ("Created " <> v.format_date t.created_at) t.id in
      record base { days_outstanding = days }

  unfoldable pub meeting_to_item : SfTask → StatDetailItem
  meeting_to_item t =
      plain_item (humanize_subject t.subject t.household_name)
        (hh_short t.household_name <> (" · " <> v.format_date t.created_at)) t.id

  -- `short || formatDate(createdAt)`.
  unfoldable pub recent_item : SfTask → RecentItem
  recent_item t = record {
    subject = describe_activity v.upper t.subject t.household_name;
    household =
        (let short = hh_short t.household_name in
          if truthy short then short else v.format_date t.created_at);
    url = url <> ("/" <> t.id);
    item_type = task_type_text (classify_task v.upper t.subject);
    household_id = or_undefined t.household_id;
    household_name = or_undefined t.household_name;
  }

  unfoldable pub stats_of : TriageThresholdConfig → Book → HomeStats
  stats_of cfg b = record {
    overdue_tasks = length (overdue_tasks v b);
    open_tasks = length (open_tasks v b);
    ready_for_review = length (unreviewed v b);
    unsigned_envelopes = length (unsigned_tasks v b);
    upcoming_meetings = length (recent_meetings v b);
    overdue_task_items = map task_to_item (take 20 (overdue_tasks v b));
    open_task_items = map task_to_item (take 20 (open_tasks v b));
    ready_for_review_items = map review_to_item (take 20 (unreviewed v b));
    unsigned_items = map unsigned_to_item (take 20 (unsigned_tasks v b));
    upcoming_meeting_items = map meeting_to_item (take 20 (recent_meetings v b));
    recent_items = map recent_item (take 5 (completed_tasks v b));
    insights = top_insights v cfg url b;
    triage_items = top_triage v cfg url b;
  }

unfoldable pub build_home_stats :
    Env
    → List SfTask
    → List SfHousehold
    → String
    → Option String
    → Option TriageThresholdConfig
    → HomeStats
build_home_stats v tasks households url advisor config =
    stats_of v url (get_or_else config default_triage_config) (book_of advisor households tasks)
