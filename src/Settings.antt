-- ===== src/Settings.antt =====
-- The settings view, web/src/views/SettingsView.tsx. Its fields of durations and of sizes stand here
-- below, its edits and what its buttons call in the other children.
pub mod Durations
pub mod Sizes
pub mod Edits
pub mod Releases
pub mod Upkeep
mod Tests
