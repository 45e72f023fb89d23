-- ===== src/Tokenization.antt =====
-- The tokenizers (src/tokenization).
pub mod Lexical
pub mod Known
pub mod Inference
