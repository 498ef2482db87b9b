-- ===== src/Workflow/Templates.antt =====
-- `WORKFLOW_TEMPLATES` of frontend/src/lib/workflows.ts.
use min_demo.Base.{true, none, some, List, [], ◌∷◌}
use min_demo.Workflow.{
  household_created, scheduled, high, normal, not_started, days_since_created, WorkflowTemplate,
}

abbrev pub onboarding : WorkflowTemplate
onboarding = record {
  id = "new-client-onboarding";
  name = "New Client Onboarding";
  description =
      "Automatically creates tasks for the full onboarding sequence: paperwork → DocuSign → compliance review → initial meeting → 90-day check-in.";
  trigger = household_created;
  trigger_subject_contains = none;
  is_enabled = true;
  steps =
      (record {
        id = "nco-1-welcome";
        label = "Send Welcome Package";
        task_subject = "WORKFLOW — Send welcome package";
        task_description =
            some
              "New client onboarding workflow: Send welcome email with firm overview, fee disclosure, and privacy policy. Auto-created by Min workflow engine.";
        task_priority = some high;
        task_status = some not_started;
        delay_days = 0;
        condition = none;
      })
      ∷ (record {
        id = "nco-2-docusign";
        label = "Prepare DocuSign Envelopes";
        task_subject = "WORKFLOW — Prepare DocuSign envelopes";
        task_description =
            some
              "Generate and send all required account opening documents via DocuSign. Auto-created by Min workflow engine.";
        task_priority = some high;
        task_status = some not_started;
        delay_days = 1;
        condition = none;
      })
      ∷ (record {
        id = "nco-3-compliance";
        label = "Run Compliance Review";
        task_subject = "WORKFLOW — Run compliance review";
        task_description =
            some
              "Complete initial compliance review for the new household. Verify KYC, suitability, and documentation completeness. Auto-created by Min workflow engine.";
        task_priority = some high;
        task_status = some not_started;
        delay_days = 3;
        condition = none;
      })
      ∷ (record {
        id = "nco-4-meeting";
        label = "Schedule Initial Meeting";
        task_subject = "WORKFLOW — Schedule initial client meeting";
        task_description =
            some
              "Book and conduct the initial strategy meeting with the new client. Review investment objectives, risk tolerance, and planning needs. Auto-created by Min workflow engine.";
        task_priority = some normal;
        task_status = some not_started;
        delay_days = 7;
        condition = none;
      })
      ∷ (record {
        id = "nco-5-funding-check";
        label = "Verify Funding Complete";
        task_subject = "WORKFLOW — Verify account funding";
        task_description =
            some
              "Confirm all accounts are funded as planned. Follow up on any pending transfers or MoneyLink setups. Auto-created by Min workflow engine.";
        task_priority = some normal;
        task_status = some not_started;
        delay_days = 14;
        condition = none;
      })
      ∷ (record {
        id = "nco-6-90day";
        label = "90-Day Check-In";
        task_subject = "WORKFLOW — 90-day new client check-in";
        task_description =
            some
              "Conduct 90-day check-in: review portfolio performance, validate allocation is on target, confirm client satisfaction, update financial plan if needed. Auto-created by Min workflow engine.";
        task_priority = some normal;
        task_status = some not_started;
        delay_days = 90;
        condition = none;
      })
      ∷ [];
}

abbrev pub document_expiration : WorkflowTemplate
document_expiration = record {
  id = "document-expiration";
  name = "Document Expiration Tracking";
  description =
      "Monitors client ID documents for expiration. Creates warning tasks at 60, 30, and 7 days before expiration, with automatic escalation.";
  trigger = scheduled;
  trigger_subject_contains = none;
  is_enabled = true;
  steps =
      (record {
        id = "dex-1-60day";
        label = "60-Day Warning";
        task_subject = "WORKFLOW — Document expiring in 60 days";
        task_description =
            some
              "Client identification document is expiring within 60 days. Request updated documentation from client. Auto-created by Min workflow engine.";
        task_priority = some normal;
        task_status = some not_started;
        delay_days = 0;
        condition = some (record {
          cond_type = days_since_created;
          subject_contains = none;
          min_days = some 305;
        });
      })
      ∷ (record {
        id = "dex-2-30day";
        label = "30-Day Urgent Notice";
        task_subject = "WORKFLOW — Document expiring in 30 days — ACTION REQUIRED";
        task_description =
            some
              "URGENT: Client identification document expires in 30 days. If not renewed, account may be restricted per compliance policy. Auto-created by Min workflow engine.";
        task_priority = some high;
        task_status = some not_started;
        delay_days = 30;
        condition = none;
      })
      ∷ (record {
        id = "dex-3-7day";
        label = "7-Day Escalation";
        task_subject = "WORKFLOW — Document expires in 7 days — ESCALATE";
        task_description =
            some
              "ESCALATION: Client document expires in 7 days. Notify compliance officer and client relationship manager. Account restrictions may apply. Auto-created by Min workflow engine.";
        task_priority = some high;
        task_status = some not_started;
        delay_days = 23;
        condition = none;
      })
      ∷ [];
}

abbrev pub workflow_templates : List WorkflowTemplate
workflow_templates = onboarding ∷ document_expiration ∷ []
