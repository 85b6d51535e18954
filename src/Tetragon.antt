-- ===== src/Tetragon.antt =====
-- src/tetragon.rs: the streams of network events, and the buffer that they fill.
pub mod Buffer
pub mod Endpoints
pub mod Streams
