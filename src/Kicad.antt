-- ===== src/Kicad.antt =====
-- backend/internal/kicad: the KiCad project of a layout.
pub mod Names
pub mod Slug
pub mod Floats
pub mod Options
pub mod Json
pub mod Result
pub mod Preset
pub mod Request
pub mod Sheets
pub mod Bundle
pub mod Project
