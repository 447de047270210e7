-- ===== src/Steam.antt =====
-- libdbsteam/db.h, db.cpp, rs.cpp and query.cpp, and libdb/query.h and query.cpp: the database in memory.
pub mod Keys
pub mod Index
pub mod Numbers
pub mod State
pub mod Records
pub mod Access
pub mod Agrees
pub mod Valid
pub mod Methods
pub mod Deleting
pub mod Created
pub mod History
pub mod Query
pub mod Views
pub mod Writing
pub mod Printing
pub mod Ordered
pub mod Evaluate
pub mod Meaning
pub mod Building
pub mod WellFormed
pub mod Cloning
pub mod Rows
pub mod Scanning
pub mod Induction
pub mod Ordering
pub mod Filled
pub mod Looking
pub mod Choosing
pub mod Selecting
pub mod Collating
pub mod Sorted
pub mod Examples
