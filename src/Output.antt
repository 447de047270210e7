-- ===== src/Output.antt =====
-- liboutput/queue.h and liboutput/queue.cpp, class `output::Queue`: the play queue.
pub mod State
pub mod Edit
pub mod Transport
pub mod Valid
pub mod Insert
pub mod EntryInsert
pub mod Marking
pub mod QueueRemove
pub mod Sweeping
pub mod EntryRemove
pub mod Shuffle
pub mod Playing
pub mod Faults
pub mod History
pub mod Examples
