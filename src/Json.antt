-- ===== src/Json.antt =====
-- JSON: tools/jsonbuilder (Int, Str, Rune, Stream) and the cells of a raw block as JSON,
-- tools/ctools/block.go (Block).
pub mod Int
pub mod Str
pub mod Rune
pub mod Stream
pub mod Block
pub mod Runs
