-- ===== src/Codecs.antt =====
-- codec.go and format.go: the table of codecs, and which codec a name or a file's extension selects.
-- Decode and Encode of a codec are code of its own, which the table does not call.
pub mod Table
pub mod Recent
