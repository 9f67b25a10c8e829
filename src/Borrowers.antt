-- ===== src/Borrowers.antt =====
-- backend/app/features/borrowers: registration, activation and the sessions of the Borrower App.
pub mod Phone
pub mod Registration
pub mod Activation
pub mod Sessions
pub mod Onboarding
pub mod Context
mod Examples
