-- ===== src/SfCall.antt =====
-- The browser's gateway to the Salesforce route: the CSRF tokens of frontend/src/lib/csrf.ts, the
-- responses of frontend/src/lib/sf-response.ts and `callSF` of frontend/src/lib/salesforce.ts.
pub mod Bits
pub mod Csrf
pub mod Response
pub mod Call
mod Tests
