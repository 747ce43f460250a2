-- ===== src/UseCases.antt =====
-- service_order/application/usecases: what a request to the service does to one order.
pub mod Steps
pub mod Advance
pub mod Authorization
pub mod Deletion
pub mod Effects
pub mod Refunds
pub mod Answers
pub mod ItemLists
pub mod Saving
pub mod ItemInputs
pub mod Creation
pub mod Update
pub mod ItemEffects
pub mod Renaming
pub mod SavingEffects
pub mod Created
pub mod Removal
pub mod Replacement
pub mod Details
pub mod Updated
pub mod Noting
pub mod UpdateEffects
pub mod Deleted
