-- ===== src/Contracts.antt =====
-- The data of src/flowsec/runtime/contracts.py.
pub mod Enums
pub mod Values
pub mod Equality
pub mod Host
pub mod Visible
pub mod Evidence
pub mod Requests
pub mod Experience
pub mod State
