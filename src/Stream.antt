-- ===== src/Stream.antt =====
-- libutil/stream.cpp, string_stream.cpp, partial_stream.cpp, memory_stream.cpp and line_reader.cpp: streams of bytes.
pub mod State
pub mod Loops
pub mod Text
pub mod Partial
pub mod Whole
pub mod Memory
pub mod Lines
pub mod Flat
pub mod Window
pub mod Examples
