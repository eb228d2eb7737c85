-- ===== src/Core.antt =====
-- packages/@twokeys/core: the parts that every other package uses.
pub mod TitleCase
pub mod Prompts
pub mod Config
pub mod Logger
