-- ===== src/Der.antt =====
-- The decoders of DER data in src/py_nss.c, one child for each kind of data.
--
-- A `SECItem` is here the list of the octets that its `data` and `len` describe, or, where the code
-- may read past them, a memory `ℕ → ℕ` of octets with a length. `none` is a NULL pointer.
pub mod Tag
pub mod Sequence
pub mod BitString
pub mod BitTable
pub mod Integer
pub mod Ucs2
pub mod Escape
pub mod Text
pub mod Tests
