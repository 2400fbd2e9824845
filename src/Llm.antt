-- ===== src/Llm.antt =====
-- internal/llm: the language model behind the interface `Client`.
pub mod Defs
pub mod Answers
