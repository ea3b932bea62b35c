-- ===== src/Core.antt =====
-- src/core: what the rest of the program shares.
pub mod Hotwords
