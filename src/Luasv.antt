-- ===== src/Luasv.antt =====
-- companion/internal/luasv: the reader of the addon's SavedVariables file.
pub mod Token
pub mod Cursor
pub mod Escapes
pub mod Lexer
pub mod Value
pub mod Sequence
pub mod Monad
pub mod Parser
