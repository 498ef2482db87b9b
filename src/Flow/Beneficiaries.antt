-- ===== src/Flow/Beneficiaries.antt =====
-- The beneficiaries that frontend/src/app/flow/useFlowState.ts fills in on entering their step, and
-- the client names it derives.
use min_demo.Base.{
  trim, Bool, true, false, ◌||◌, ◌&&◌, String, List, [], ◌∷◌, ◌++◌, if◌then◌else◌, str_eq, ◌<>◌,
  truthy, units, includes,
}
use min_demo.Types.{FlowStep, beneficiaries, ClientInfo, AccountRequest, Beneficiary, primary}
use min_demo.Flow.{FlowState, set_beneficiaries, reducer}

-- `p1Name` and `p2Name`.
unfoldable pub full_name : ClientInfo → String
full_name client = trim (client.first_name <> (" " <> client.last_name))

-- The survivor of these accounts takes them.
unfoldable pub is_survivorship : AccountRequest → Bool
is_survivorship acc =
    includes (units "JTWROS") (units acc.acct_type) || str_eq acc.acct_type "Community Property"

abbrev pub designate : String → String → String → List Beneficiary
designate account_id name relationship =
    record {
      account_id = account_id;
      name = name;
      relationship = relationship;
      percentage = 100;
      bene_type = primary;
    }
    ∷ []

-- The one the account goes to when the clients are two.
unfoldable pub spouse_of : FlowState → String → String
spouse_of s owner = if str_eq owner (full_name s.p2) then full_name s.p1 else full_name s.p2

abbrev pub trusted_contact : ClientInfo → String
trusted_contact client = client.trusted_contact_name <> (" " <> client.trusted_contact_last_name)

abbrev pub contact_relationship : ClientInfo → String
contact_relationship client =
    if truthy client.trusted_contact_relationship
    then client.trusted_contact_relationship
    else "Other"

abbrev has_contact : ClientInfo → Bool
has_contact client = truthy client.trusted_contact_name && truthy client.trusted_contact_last_name

-- The body of the `forEach` over the accounts.
unfoldable pub designations : FlowState → AccountRequest → List Beneficiary
designations s acc =
    if is_survivorship acc
    then []
    else if s.has_p2
    then (if truthy (spouse_of s acc.owner)
        then designate acc.id (spouse_of s acc.owner) "Spouse"
        else [])
    else (if has_contact s.p1
        then designate acc.id (trusted_contact s.p1) (contact_relationship s.p1)
        else [])

unfoldable pub designate_all : FlowState → List AccountRequest → List Beneficiary
designate_all s [] = []
designate_all s (acc ∷ accs) = designations s acc ++ designate_all s accs

abbrev is_nil {ℓ} : {A : Type ℓ} → List A → Bool
is_nil [] = true
is_nil (x ∷ xs) = false

abbrev is_beneficiaries : FlowStep → Bool
is_beneficiaries beneficiaries = true
is_beneficiaries _ = false

-- The effect on a change of the step.
unfoldable pub populate : (String → String) → FlowState → FlowState
unfolding reducer
populate lower s =
    if is_beneficiaries s.step && is_nil s.beneficiaries
    then reducer lower s (set_beneficiaries (designate_all s s.accounts))
    else s
