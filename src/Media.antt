-- ===== src/Media.antt =====
-- libmediadb/schema.cpp and allocate_id.cpp: what the media databases share.
pub mod Children
pub mod AllocateId
pub mod Examples
pub mod FreshId
