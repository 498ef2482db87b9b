-- ===== src/Flow.antt =====
-- The account opening flow of frontend/src/app/flow/useFlowState.ts: its state, its actions and
-- its reducer. Steps, accounts, drafts and beneficiaries are in the children.
pub mod Steps
pub mod Accounts
pub mod Intents
pub mod Draft
pub mod Beneficiaries
pub mod Designations
pub mod Banks
pub mod Progress
mod Tests
use Prim.Native.Char.{Char, code}
use min_demo.Base.{
  ℕ, String, Bool, true, false, not, ◌&&◌, ◌||◌, Option, none, some, List, [], ◌∷◌, is_space, ◌++◌,
  map, str_eq, leb, ◌==◌, if◌then◌else◌, filter, any, get_or_else, ◌<>◌,
}
use min_demo.Types.{
  FlowStep, context, ClientInfo, empty_client, AccountRequest, Beneficiary, BeneType, primary,
  SfEvidence, EnvStatus, SearchResult,
}

pub data ClientType : Type 0 where
  new_client existing_client : ClientType

pub record Routing : Type 0 where
  pub name : String
  pub full : String

pub record FlowState : Type 0 where
  pub step : FlowStep
  pub selected_intents : List String
  pub free_text : String
  pub client_type : Option ClientType
  pub search_query : String
  pub p1 : ClientInfo
  pub p2 : ClientInfo
  pub show_p1_ssn : Bool
  pub show_p2_ssn : Bool
  pub has_p2 : Bool
  pub has_joint : Bool
  pub accounts : List AccountRequest
  pub fund_idx : ℕ
  pub setup_ach : Option Bool
  pub bank_last4 : String
  pub bank_acct : String
  pub matched_bank : Option String
  pub routing_matches : List Routing
  pub show_routing_dd : Bool
  pub show_broker_dd : Bool
  pub beneficiaries : List Beneficiary
  pub edit_bene : Option String
  pub new_bname : String
  pub new_brel : String
  pub new_bpct : String
  pub new_btype : BeneType
  pub signer_email : String
  pub follow_up_days : String
  pub is_processing : Bool
  pub evidence : List SfEvidence
  pub gen_step : ℕ
  pub env_statuses : List EnvStatus
  pub sf_search_results : List SearchResult
  pub is_searching : Bool
  pub show_right_pane : Bool

abbrev pub initial_flow : FlowState
initial_flow = record {
  step = context;
  selected_intents = [];
  free_text = "";
  client_type = none;
  search_query = "";
  p1 = empty_client;
  p2 = empty_client;
  show_p1_ssn = false;
  show_p2_ssn = false;
  has_p2 = false;
  has_joint = false;
  accounts = [];
  fund_idx = 0;
  setup_ach = none;
  bank_last4 = "";
  bank_acct = "";
  matched_bank = none;
  routing_matches = [];
  show_routing_dd = false;
  show_broker_dd = false;
  beneficiaries = [];
  edit_bene = none;
  new_bname = "";
  new_brel = "Spouse";
  new_bpct = "100";
  new_btype = primary;
  signer_email = "";
  follow_up_days = "3";
  is_processing = false;
  evidence = [];
  gen_step = 0;
  env_statuses = [];
  sf_search_results = [];
  is_searching = false;
  show_right_pane = false;
}

-- A `Partial<AccountRequest>`: the fields that an update gives.
pub record AccountUpdate : Type 0 where
  pub id : Option String
  pub owner : Option String
  pub acct_type : Option String
  pub purpose : Option (Option String)
  pub funding : Option (Option String)
  pub allocation : Option (Option String)
  pub amount : Option (Option String)
  pub funding_amount : Option (Option String)
  pub signers : Option ℕ

pub data FlowAction : Type 0 where
  set_step : FlowStep → FlowAction
  set_p1 : ClientInfo → FlowAction
  set_p2 : ClientInfo → FlowAction
  toggle_intent : String → FlowAction
  add_account : (owner acct_type : String) (signers : ℕ) → FlowAction
  update_account : String → AccountUpdate → FlowAction
  set_beneficiaries : List Beneficiary → FlowAction
  add_beneficiary : Beneficiary → FlowAction
  remove_beneficiary : (account_id name : String) → FlowAction
  add_evidence : SfEvidence → FlowAction
  set_env_statuses : List EnvStatus → FlowAction
  set_sf_results : List SearchResult → FlowAction
  set_client_type : Option ClientType → FlowAction
  set_search_query : String → FlowAction
  set_show_p1_ssn : Bool → FlowAction
  set_show_p2_ssn : Bool → FlowAction
  set_has_p2 : Bool → FlowAction
  set_has_joint : Bool → FlowAction
  set_fund_idx : ℕ → FlowAction
  set_setup_ach : Option Bool → FlowAction
  set_bank_last4 : String → FlowAction
  set_bank_acct : String → FlowAction
  set_matched_bank : Option String → FlowAction
  set_routing_matches : List Routing → FlowAction
  set_show_routing_dd : Bool → FlowAction
  set_show_broker_dd : Bool → FlowAction
  set_edit_bene : Option String → FlowAction
  set_new_bname : String → FlowAction
  set_new_brel : String → FlowAction
  set_new_bpct : String → FlowAction
  set_new_btype : BeneType → FlowAction
  set_signer_email : String → FlowAction
  set_follow_up_days : String → FlowAction
  set_is_processing : Bool → FlowAction
  set_gen_step : ℕ → FlowAction
  set_is_searching : Bool → FlowAction
  set_show_right_pane : Bool → FlowAction
  set_free_text : String → FlowAction
  reset : FlowAction

abbrev dash_space : Char → Char
dash_space c = if is_space (code c) then "-" else c

unfoldable pub dash_spaces : String → String
dash_spaces String.[] = ""
dash_spaces (String.◌∷◌ c s) = String.◌∷◌ (dash_space c) (dash_spaces s)

abbrev apply_update : AccountUpdate → AccountRequest → AccountRequest
apply_update u a = record {
  id = get_or_else u.id a.id;
  owner = get_or_else u.owner a.owner;
  acct_type = get_or_else u.acct_type a.acct_type;
  purpose = get_or_else u.purpose a.purpose;
  funding = get_or_else u.funding a.funding;
  allocation = get_or_else u.allocation a.allocation;
  amount = get_or_else u.amount a.amount;
  funding_amount = get_or_else u.funding_amount a.funding_amount;
  signers = get_or_else u.signers a.signers;
}

abbrev pub member : String → List String → Bool
member x xs = any (str_eq x) xs

abbrev pub has_account : String → List AccountRequest → Bool
has_account id accounts = any (λ a. str_eq a.id id) accounts

-- "TOGGLE_INTENT".
unfoldable pub toggle : String → List String → List String
toggle i xs = if member i xs then filter (λ x. not (str_eq x i)) xs else xs ++ i ∷ []

-- `lower` is `String.prototype.toLowerCase`, of which nothing is assumed.
module _ (lower : String → String) where
  -- The id of an account, by its owner and its type.
  unfoldable pub account_id : String → String → String
  account_id owner acct_type = dash_spaces (lower (owner <> ("-" <> acct_type)))

  -- "ADD_ACCOUNT": an account with the same id is taken away instead.
  unfoldable pub toggle_account : String → String → ℕ → List AccountRequest → List AccountRequest
  toggle_account owner acct_type signers accounts =
      let id = account_id owner acct_type in
      if has_account id accounts
      then filter (λ a. not (str_eq a.id id)) accounts
      else accounts
        ++ record {
          id = id;
          owner = owner;
          acct_type = acct_type;
          purpose = none;
          funding = none;
          allocation = none;
          amount = none;
          funding_amount = none;
          signers = signers;
        }
          ∷ []

  -- `RESET` clears the saved draft as well: Flow/Draft has that.
  unfoldable pub reducer : FlowState → FlowAction → FlowState
  reducer s (set_step step) = record s { step = step }
  reducer s (set_p1 value) = record s { p1 = value }
  reducer s (set_p2 value) = record s { p2 = value }
  reducer s (toggle_intent i) = record s { selected_intents = toggle i s.selected_intents }
  reducer s (add_account owner acct_type signers) = record s {
    accounts = toggle_account owner acct_type signers s.accounts;
  }
  reducer s (update_account id update) = record s {
    accounts = map (λ a. if str_eq a.id id then apply_update update a else a) s.accounts;
  }
  reducer s (set_beneficiaries value) = record s { beneficiaries = value }
  reducer s (add_beneficiary bene) = record s {
    beneficiaries = s.beneficiaries ++ bene ∷ [];
    new_bname = "";
    new_brel = "Spouse";
    new_bpct = "100";
    new_btype = primary;
    edit_bene = none;
  }
  reducer s (remove_beneficiary account_id name) = record s {
    beneficiaries =
        filter (λ b. not (str_eq b.account_id account_id && str_eq b.name name)) s.beneficiaries;
  }
  reducer s (add_evidence ev) = record s { evidence = s.evidence ++ ev ∷ [] }
  reducer s (set_env_statuses statuses) = record s { env_statuses = statuses }
  reducer s (set_sf_results results) = record s { sf_search_results = results }
  reducer s (set_client_type value) = record s { client_type = value }
  reducer s (set_search_query value) = record s { search_query = value }
  reducer s (set_show_p1_ssn value) = record s { show_p1_ssn = value }
  reducer s (set_show_p2_ssn value) = record s { show_p2_ssn = value }
  reducer s (set_has_p2 value) = record s { has_p2 = value }
  reducer s (set_has_joint value) = record s { has_joint = value }
  reducer s (set_fund_idx value) = record s { fund_idx = value }
  reducer s (set_setup_ach value) = record s { setup_ach = value }
  reducer s (set_bank_last4 value) = record s { bank_last4 = value }
  reducer s (set_bank_acct value) = record s { bank_acct = value }
  reducer s (set_matched_bank value) = record s { matched_bank = value }
  reducer s (set_routing_matches value) = record s { routing_matches = value }
  reducer s (set_show_routing_dd value) = record s { show_routing_dd = value }
  reducer s (set_show_broker_dd value) = record s { show_broker_dd = value }
  reducer s (set_edit_bene value) = record s { edit_bene = value }
  reducer s (set_new_bname value) = record s { new_bname = value }
  reducer s (set_new_brel value) = record s { new_brel = value }
  reducer s (set_new_bpct value) = record s { new_bpct = value }
  reducer s (set_new_btype value) = record s { new_btype = value }
  reducer s (set_signer_email value) = record s { signer_email = value }
  reducer s (set_follow_up_days value) = record s { follow_up_days = value }
  reducer s (set_is_processing value) = record s { is_processing = value }
  reducer s (set_gen_step value) = record s { gen_step = value }
  reducer s (set_is_searching value) = record s { is_searching = value }
  reducer s (set_show_right_pane value) = record s { show_right_pane = value }
  reducer s (set_free_text value) = record s { free_text = value }
  reducer s reset = initial_flow

  pub reduce_all : FlowState → List FlowAction → FlowState
  reduce_all s [] = s
  reduce_all s (a ∷ acts) = reduce_all (reducer s a) acts
