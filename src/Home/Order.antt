-- ===== src/Home/Order.antt =====
-- What `buildHomeStats` of frontend/src/lib/home-stats.ts puts first and what it leaves out.
use min_demo.Base.{ℕ, String, Option, List, get_or_else, IsTop, take-sort_by-IsTop}
use min_demo.Stats.{SfTask, SfHousehold, HomeStats, Insight, TriageItem}
use min_demo.Home.Config.{TriageThresholdConfig, default_triage_config}
use min_demo.Home.Wording.{Env}
use min_demo.Home.Selection.{book_of}
use min_demo.Home.Insights.{all_insights, top_insights, severity_order}
use min_demo.Home.Triage.{triage_queue, top_triage, urgency_order}
use min_demo.Home.Build.{build_home_stats, stats_of}

abbrev pub urgency_rank : TriageItem → ℕ
urgency_rank i = urgency_order i.urgency

abbrev pub severity_rank : Insight → ℕ
severity_rank i = severity_order i.severity

module _ (v : Env) (tasks : List SfTask) (households : List SfHousehold) (url : String)
    (advisor : Option String) (config : Option TriageThresholdConfig) where
  abbrev pub config_used : TriageThresholdConfig
  config_used = get_or_else config default_triage_config

  abbrev pub stats : HomeStats
  stats = build_home_stats v tasks households url advisor config

  -- The triage items shown are the most urgent of the queue, as many as the threshold allows, and
  -- the insights shown are the three most severe of those found: what is left out follows them in
  -- rank, and items of one rank keep the order in which the code pushes them.
  pub build_home_stats-IsTop :
      IsTop urgency_rank config_used.triage_cap
        (triage_queue v config_used url (book_of advisor households tasks))
        stats.triage_items
      × IsTop severity_rank 3
          (all_insights v config_used url (book_of advisor households tasks))
          stats.insights
  unfolding build_home_stats stats_of top_triage top_insights
  build_home_stats-IsTop =
      let b = book_of advisor households tasks in
      (
        take-sort_by-IsTop urgency_rank config_used.triage_cap (triage_queue v config_used url b),
        take-sort_by-IsTop severity_rank 3 (all_insights v config_used url b),
      )
