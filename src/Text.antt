-- ===== src/Text.antt =====
-- The text conversions of libutil.
pub mod Xml
pub mod Quote
pub mod UrlText
pub mod Scan
pub mod Paths
pub mod HttpLines
pub mod PathLaws
pub mod FileUrl
pub mod Utf8
pub mod Examples
