-- ===== src/Spotnet/Parser.antt =====
-- internal/spotnet/parser.go: an overview line as a spot.
pub mod Subject
pub mod SubCats
pub mod PostDate
pub mod Overview
