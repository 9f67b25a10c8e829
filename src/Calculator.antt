-- ===== src/Calculator.antt =====
-- backend/app/features/loans/calculator.py: the stateless financial calculator. Each child models
-- one function group, and the children below it prove it.
pub mod Allocation
pub mod DueDates
pub mod Quote
mod Examples
