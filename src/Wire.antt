-- ===== src/Wire.antt =====
-- The RAPI wire format (jornada/wire.py) and texts in UTF-16.
pub mod Utf16
pub mod Encode
pub mod Reader
pub mod RoundTrip
mod Examples
