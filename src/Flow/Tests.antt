-- ===== src/Flow/Tests.antt =====
-- The account opening flow at concrete inputs; ids are left in the case they are given in.
use min_demo.Base.{trim, ◌≡◌, refl, inl, true, String, none, List, [], ◌∷◌, length, All}
use min_demo.Types.{funding, beneficiaries, review, ClientInfo, empty_client}
use min_demo.Flow.{
  FlowState, FlowAction, initial_flow, add_account, set_step, account_id, dash_spaces,
  toggle_account, reducer, reduce_all,
}
use min_demo.Flow.Accounts.{DistinctIds, accounts-DistinctIds}
use min_demo.Flow.Draft.{
  Page, absent, action, effect, mount, happen, happen_all, HoldsNoPii, draft-HoldsNoPii, redacted,
  reload,
}
use min_demo.Flow.Beneficiaries.{
  populate, full_name, designate_all, designations, is_survivorship, spouse_of,
}
use min_demo.Flow.Designations.{
  populate_designates, EachFor, without_survivor, FullPrimary, account_ids, needing,
}
use min_demo.Flow.Banks.{routing_for, pick_bank, pick_bank_lem, last_four}

abbrev same : String → String
same t = t

abbrev jane : ClientInfo
jane = record empty_client {
  first_name = "Jane";
  last_name = "Smith";
  ssn = "123456789";
  dob = "01/02/1970";
  id_number = "D-77";
}

abbrev john : ClientInfo
john = record jane { first_name = "John"; ssn = "987654321" }

abbrev couple : FlowState
couple = record initial_flow { p1 = jane; p2 = john; has_p2 = true }

abbrev adding : List FlowAction
adding =
    add_account "Jane Smith" "Roth IRA" 1
    ∷ add_account "John Smith" "IRA" 1
    ∷ add_account "Joint" "JTWROS" 2
    ∷ add_account "Jane Smith" "Roth IRA" 1
    ∷ add_account "Jane Smith" "Individual" 1
    ∷ []

abbrev with_accounts : FlowState
with_accounts = reduce_all same couple adding

with_accounts_test : length with_accounts.accounts ≡ 3
unfolding reduce_all reducer toggle_account account_id dash_spaces
with_accounts_test = refl

account_id_test : account_id same "Jane Smith" "Roth IRA" ≡ "Jane-Smith-Roth-IRA"
unfolding account_id dash_spaces
account_id_test = refl

abbrev to_fund : FlowState
to_fund = record with_accounts { step = funding }

accounts-DistinctIds_example : DistinctIds (reduce_all same initial_flow adding).accounts
accounts-DistinctIds_example = accounts-DistinctIds same adding (tt, (tt, (tt, (tt, (tt, tt)))))

draft-HoldsNoPii_example :
    HoldsNoPii
      (happen_all same
        (action (set_step review) ∷ effect true ∷ mount none ∷ effect true ∷ [])
        (record { flow = couple; stored = absent })).stored
draft-HoldsNoPii_example =
    draft-HoldsNoPii same (action (set_step review) ∷ effect true ∷ mount none ∷ effect true ∷ [])
      (record { flow = couple; stored = absent }) tt

abbrev reviewing : Page
reviewing = record { flow = record couple { step = review }; stored = absent }

reload_example :
    (happen same (mount none) (happen same (effect true) reviewing)).flow ≡ redacted reviewing.flow
reload_example = reload same reviewing

abbrev entering : FlowState
entering = record with_accounts { step = beneficiaries }

populate_designates_example :
    (account_ids (populate same entering).beneficiaries ≡ needing entering.accounts)
    × EachFor entering (without_survivor entering.accounts) (populate same entering).beneficiaries
    × All FullPrimary (populate same entering).beneficiaries
unfolding reduce_all reducer full_name trim
populate_designates_example = populate_designates same entering refl refl (inl (refl, (refl, refl)))

populate_test :
    account_ids (populate same entering).beneficiaries
    ≡ "John-Smith-IRA" ∷ "Jane-Smith-Individual" ∷ []
unfolding reduce_all reducer populate designate_all toggle_account account_id dash_spaces
    designations is_survivorship spouse_of full_name trim
populate_test = refl

abbrev typed_2211 : FlowState
typed_2211 = record couple { bank_last4 = "2211" }

-- A bank picked for the digits 00 is no longer matched after the click.
pick_bank_lem_example :
    (pick_bank same
      (record { name = "Bank of America (East)"; full = "011000015" })
      (record couple { bank_last4 = "00" })).matched_bank
    ≡ none
unfolding routing_for last_four
pick_bank_lem_example =
    pick_bank_lem same (record { name = "Bank of America (East)"; full = "011000015" })
      (record couple { bank_last4 = "00" }) refl
