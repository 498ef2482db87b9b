-- ===== src/SfClient.antt =====
-- The Salesforce client primitives of frontend/src/lib/sf-client.ts, one child for each part.
pub mod Ids
pub mod Soql
pub mod Fetch
pub mod Query
pub mod Batch
mod Tests
mod RecordTests
pub mod Records
pub mod Writing
