-- ===== src/Custodian.antt =====
-- The custodians of frontend/src/lib/custodian.ts. The identifier is the source's string, since
-- the environment variable may hold any; the optional flag `tdaLegacy`, which no entry sets, is
-- left out.
pub mod Rules
pub mod Schwab
pub mod Fidelity
pub mod Pershing
pub mod Lookup
use min_demo.Base.{String, Option, none, some, List, [], ◌∷◌, str_eq, if◌then◌else◌, truthy}

pub record CustodianConfig : Type 0 where
  pub id : String
  pub name : String
  pub short_name : String
  pub brand_name : String
  pub platform : String
  pub doc_prefix : String
  pub ach_label : String
  pub custody_ref : String
  pub docusign_cc : Option String
  pub transfer_form : String
  pub form_crs : String

abbrev pub schwab : CustodianConfig
schwab = record {
  id = "schwab";
  name = "Charles Schwab & Co.";
  short_name = "Schwab";
  brand_name = "Charles Schwab";
  platform = "Schwab Advisor Services";
  doc_prefix = "Charles Schwab";
  ach_label = "MoneyLink";
  custody_ref = "Charles Schwab & Co., Inc.";
  docusign_cc = some "Schwab DocuSign CC";
  transfer_form = "Transfer of Assets (TOA) Form";
  form_crs = "Form CRS (Client Relationship Summary)";
}

abbrev pub fidelity : CustodianConfig
fidelity = record {
  id = "fidelity";
  name = "Fidelity Investments";
  short_name = "Fidelity";
  brand_name = "Fidelity";
  platform = "Fidelity Institutional";
  doc_prefix = "Fidelity";
  ach_label = "Electronic Funds Transfer (EFT)";
  custody_ref = "Fidelity Brokerage Services LLC";
  docusign_cc = some "Fidelity Advisor DocuSign";
  transfer_form = "Transfer of Assets (TOA) Form";
  form_crs = "Form CRS (Client Relationship Summary)";
}

abbrev pub pershing : CustodianConfig
pershing = record {
  id = "pershing";
  name = "Pershing LLC";
  short_name = "Pershing";
  brand_name = "Pershing";
  platform = "Pershing Advisor Solutions";
  doc_prefix = "Pershing";
  ach_label = "ACH Authorization";
  custody_ref = "Pershing LLC, a BNY Mellon Company";
  docusign_cc = some "Pershing Operations";
  transfer_form = "Account Transfer Form (ACAT)";
  form_crs = "Form CRS (Client Relationship Summary)";
}

abbrev pub altus : CustodianConfig
altus = record {
  id = "altus";
  name = "Altus Financial";
  short_name = "Altus";
  brand_name = "Altus";
  platform = "Altus Custody Services";
  doc_prefix = "Altus";
  ach_label = "ACH / Wire Transfer";
  custody_ref = "Altus Financial Ltd.";
  docusign_cc = none;
  transfer_form = "Transfer of Assets (TOA) Form";
  form_crs = "Form CRS (Client Relationship Summary)";
}

-- `CUSTODIANS[id] || CUSTODIANS.schwab`.
unfoldable pub get_custodian : String → CustodianConfig
get_custodian id =
    if str_eq id "schwab"
    then schwab
    else if str_eq id "fidelity"
    then fidelity
    else if str_eq id "pershing"
    then pershing
    else if str_eq id "altus"
    then altus
    else schwab

-- `ACTIVE_CUSTODIAN`, from the value of `NEXT_PUBLIC_CUSTODIAN`.
unfoldable pub active_custodian : Option String → String
active_custodian none = "schwab"
active_custodian (some v) = if truthy v then v else "schwab"

unfoldable pub custodian : Option String → CustodianConfig
custodian env = get_custodian (active_custodian env)

unfoldable pub get_all_custodians : List CustodianConfig
get_all_custodians = schwab ∷ fidelity ∷ pershing ∷ altus ∷ []
