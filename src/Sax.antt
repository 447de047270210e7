-- ===== src/Sax.antt =====
-- libutil/xml.h and xml.cpp: the parser of XML that keeps what it cannot use yet in a buffer.
pub mod Parser
pub mod Progress
pub mod Ending
pub mod Examples
