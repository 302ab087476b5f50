-- ===== src/Json/RoundTrip.antt =====
-- What is encoded, decoded again.
pub mod Canonical
pub mod Atoms
pub mod Items
pub mod Fields
pub mod Whole
pub mod Calls
pub mod Again
