-- ===== src/Policy/Parsers.antt =====
-- policy/parsers/: what the four files of a site say.
pub mod Robots
pub mod AiTxt
pub mod SigningDirectory
pub mod LlmsTxt
