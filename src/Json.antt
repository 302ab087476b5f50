-- ===== src/Json.antt =====
-- json/json.c: JSON text to Janet values and back.
pub mod Result
pub mod Value
pub mod Unicode
pub mod Strings
pub mod Decode
pub mod Encode
pub mod Printed
pub mod RoundTrip
mod Tests
mod Witnesses
