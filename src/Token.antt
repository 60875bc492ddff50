-- ===== src/Token.antt =====
-- worker/pkg/parser/token: the bytes that end a lexeme (types.go), the cursor over the bytes of one
-- tag (readers.go), and the tokens.
pub mod Reader
pub mod Utils
pub mod OpenTag
pub mod CloseTag
