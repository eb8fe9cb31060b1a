-- ===== src/Bson.antt =====
-- BSON documents: the writer and the reader of core/src/util.
pub mod Types
pub mod Layout
pub mod Value
pub mod Builder
pub mod Reader
