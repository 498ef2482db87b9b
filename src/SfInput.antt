-- ===== src/SfInput.antt =====
-- The validation of the Salesforce route's input, frontend/src/lib/sf-validation.ts. `Json` has the
-- values and `Checks` the helpers, `Inputs` the validated inputs, `Records` and `Reads` the
-- validators.
pub mod Json
pub mod Checks
pub mod Inputs
pub mod Items
pub mod Records
pub mod Reads
pub mod Trim
pub mod Contracts
pub mod ListContracts
pub mod ItemContracts
pub mod Accepted
pub mod Bounds
pub mod Accepts
mod Tests
