-- ===== src/Home/Config.antt =====
-- The triage thresholds of frontend/src/lib/triage-config.ts. The text in browser storage is taken
-- to give back the fields that were written; a field that it lacks is `none`.
use min_demo.Base.{ℕ, Option, some, get_or_else, Bool, true, false, ◌≡◌, refl}

pub record TriageThresholdConfig : Type 0 where
  pub unsigned_docusign_days : ℕ
  pub due_soon_days : ℕ
  pub compliance_unreviewed_days : ℕ
  pub stale_household_days : ℕ
  pub triage_cap : ℕ
  pub compliance_critical_pct : ℕ
  pub compliance_high_pct : ℕ
  pub unsigned_critical_days : ℕ
  pub stale_critical_days : ℕ
  pub high_pri_overdue_critical_days : ℕ

abbrev pub default_triage_config : TriageThresholdConfig
default_triage_config = record {
  unsigned_docusign_days = 5;
  due_soon_days = 1;
  compliance_unreviewed_days = 7;
  stale_household_days = 30;
  triage_cap = 7;
  compliance_critical_pct = 50;
  compliance_high_pct = 80;
  unsigned_critical_days = 10;
  stale_critical_days = 60;
  high_pri_overdue_critical_days = 7;
}

-- What the stored text holds of a configuration.
pub record StoredConfig : Type 0 where
  pub unsigned_docusign_days : Option ℕ
  pub due_soon_days : Option ℕ
  pub compliance_unreviewed_days : Option ℕ
  pub stale_household_days : Option ℕ
  pub triage_cap : Option ℕ
  pub compliance_critical_pct : Option ℕ
  pub compliance_high_pct : Option ℕ
  pub unsigned_critical_days : Option ℕ
  pub stale_critical_days : Option ℕ
  pub high_pri_overdue_critical_days : Option ℕ

-- `localStorage` under the key: nothing, a text that is no JSON, or a configuration.
pub data Storage : Type 0 where
  absent : Storage
  garbled : Storage
  holds : StoredConfig → Storage

-- `{ ...DEFAULT_TRIAGE_CONFIG, ...parsed }`.
unfoldable pub merge_defaults : StoredConfig → TriageThresholdConfig
merge_defaults s =
    let d = default_triage_config in
    record {
      unsigned_docusign_days = get_or_else s.unsigned_docusign_days d.unsigned_docusign_days;
      due_soon_days = get_or_else s.due_soon_days d.due_soon_days;
      compliance_unreviewed_days =
          get_or_else s.compliance_unreviewed_days d.compliance_unreviewed_days;
      stale_household_days = get_or_else s.stale_household_days d.stale_household_days;
      triage_cap = get_or_else s.triage_cap d.triage_cap;
      compliance_critical_pct = get_or_else s.compliance_critical_pct d.compliance_critical_pct;
      compliance_high_pct = get_or_else s.compliance_high_pct d.compliance_high_pct;
      unsigned_critical_days = get_or_else s.unsigned_critical_days d.unsigned_critical_days;
      stale_critical_days = get_or_else s.stale_critical_days d.stale_critical_days;
      high_pri_overdue_critical_days =
          get_or_else s.high_pri_overdue_critical_days d.high_pri_overdue_critical_days;
    }

-- On the server there is no window.
unfoldable pub load_triage_config : Bool → Storage → TriageThresholdConfig
load_triage_config false storage = default_triage_config
load_triage_config true absent = default_triage_config
load_triage_config true garbled = default_triage_config
load_triage_config true (holds s) = merge_defaults s

unfoldable pub save_triage_config : TriageThresholdConfig → Storage
save_triage_config c = holds record {
  unsigned_docusign_days = some c.unsigned_docusign_days;
  due_soon_days = some c.due_soon_days;
  compliance_unreviewed_days = some c.compliance_unreviewed_days;
  stale_household_days = some c.stale_household_days;
  triage_cap = some c.triage_cap;
  compliance_critical_pct = some c.compliance_critical_pct;
  compliance_high_pct = some c.compliance_high_pct;
  unsigned_critical_days = some c.unsigned_critical_days;
  stale_critical_days = some c.stale_critical_days;
  high_pri_overdue_critical_days = some c.high_pri_overdue_critical_days;
}

-- What was saved is loaded again.
load-save : (c : TriageThresholdConfig) → load_triage_config true (save_triage_config c) ≡ c
unfolding load_triage_config save_triage_config merge_defaults
load-save c = refl
