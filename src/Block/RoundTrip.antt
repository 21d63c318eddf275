-- ===== src/Block/RoundTrip.antt =====
-- Reading back what was serialized: driver/common/serializer against driver/common/parser.
pub mod Marked
pub mod Fixed
pub mod Var
pub mod Values
pub mod Reading
pub mod Codecs
pub mod Runes
pub mod VarCodecs
pub mod Column
pub mod Known
pub mod Blocks
pub mod Infos
pub mod Table
