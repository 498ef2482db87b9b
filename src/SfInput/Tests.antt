-- ===== src/SfInput/Tests.antt =====
-- Concrete inputs for the validators.
use min_demo.Base.{◌≡◌, refl, Text, units, str_eq, if◌then◌else◌, arith}
use min_demo.SfClient.Ids.{is_valid_salesforce_id, eat, is_alnum}
use min_demo.SfInput.Json.{
  undefined, text, object, number, whole, below, trim_text, trim_front, trim_back,
}
use min_demo.SfInput.Checks.{
  valid, invalid, ◌>>=◌, Fields, as_record, optional_number, require_array,
}
use min_demo.SfInput.Records.{record_money_link, record_funding}
use min_demo.SfInput.Reads.{query_tasks}
use min_demo.SfInput.Contracts.{IsId}
use min_demo.SfInput.Accepted.{ChecksWrites, writes_checked}
use min_demo.SfInput.Bounds.{ChecksReads, reads_checked}
use min_demo.SfInput.Accepts.{Fits, record_money_link_accepts}

abbrev household : Text
household = units "001000000000001AAA"

abbrev link_fields : Fields
link_fields field =
    if str_eq field "householdId"
    then text household
    else if str_eq field "bankName"
    then text (units " Chase ")
    else if str_eq field "lastFour"
    then text (units "1234")
    else if str_eq field "routingLastFour"
    then text (units "0021")
    else undefined

household-IsId : IsId household
unfolding is_valid_salesforce_id eat is_alnum
household-IsId = record { at = refl }

bank-Fits : Fits link_fields "bankName" 500 (units " Chase ")
unfolding trim_text trim_front trim_back
bank-Fits = record { holds = refl; visible = λ h. cc; bounded = omega arith }

digits-Fits : Fits link_fields "lastFour" 4 (units "1234")
unfolding trim_text trim_front trim_back
digits-Fits = record { holds = refl; visible = λ h. cc; bounded = omega arith }

routing-Fits : Fits link_fields "routingLastFour" 4 (units "0021")
unfolding trim_text trim_front trim_back
routing-Fits = record { holds = refl; visible = λ h. cc; bounded = omega arith }

record_money_link_accepts_example :
    record_money_link (object link_fields)
    ≡ valid record {
      household_id = household;
      bank_name = trim_text (units " Chase ");
      last_four = trim_text (units "1234");
      routing_last_four = trim_text (units "0021");
    }
record_money_link_accepts_example =
    record_money_link_accepts link_fields household (units " Chase ") (units "1234") (units "0021")
      refl household-IsId bank-Fits digits-Fits routing-Fits

writes_checked_example : ChecksWrites (object link_fields)
writes_checked_example = writes_checked (object link_fields)

reads_checked_example : ChecksReads (object link_fields)
reads_checked_example = reads_checked (object link_fields)

abbrev page_fields : Fields
page_fields field =
    if str_eq field "limit"
    then number (whole 9999)
    else if str_eq field "offset"
    then number (below 3)
    else undefined

page_cut : query_tasks (object page_fields) ≡ valid record { limit = 500; offset = 0 }
unfolding query_tasks ◌>>=◌ as_record optional_number
page_cut = refl

no_details : record_funding (object link_fields) ≡ invalid "Missing required array: fundingDetails"
unfolding record_funding ◌>>=◌ as_record require_array
no_details = refl
