-- ===== src/Exportfmt.antt =====
-- companion/internal/exportfmt: the addon's export, decoded from its Lua table and validated.
pub mod Scan
pub mod Validate
pub mod Fields
pub mod Decode
