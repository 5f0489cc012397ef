-- ===== src/Service/Methods.antt =====
-- src/service.ts, the methods that agents, reviewers and the mock rail call.
pub mod Deadline
pub mod Expiry
pub mod Read
pub mod Insert
pub mod Create
pub mod Decide
pub mod Review
pub mod Cancel
pub mod Observe
pub mod Simulate
pub mod Calls
pub mod Listing
