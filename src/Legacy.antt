-- ===== src/Legacy.antt =====
-- packages/@twokeys/legacy-server: the server before the add-on rewrite.
pub mod Copier
pub mod Init
pub mod Trigger
