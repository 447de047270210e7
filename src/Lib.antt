-- ===== src/Lib.antt =====
-- Chorale: the playback queue of liboutput, the database in memory of libdbsteam and libdb, and
-- the streams, paths and text conversions of libutil. A player is told, one URL at a time, what to
-- play next out of a queue that can be shuffled; clients edit that queue while the player reports
-- back. The database keeps records that queries find, by a scan or through its indexes. Its
-- entries have ids and lists of children. The streams carry bytes between files, memory and
-- connections, whose first lines are HTTP, and the conversions carry titles and paths in and out
-- of XML, URLs, quoted strings and the encodings of Unicode.
--
--  Base            numbers, lists, counts and strings that the parts share
--  Output          liboutput/queue.h, queue.cpp and playstate.h
--    State         the members of Queue and Queue::Impl, SetURL and SetNextURL
--    Edit          Add, QueueInsert, EntryInsert, QueueRemove, EntryRemove
--    Transport     SetPlayState, SetShuffle, Seek, OnPlayState, OnURL, OnTimeCode
--    History       any sequence of these calls that is allowed, from the constructor on
--    Valid         the invariant; the other files prove it, one operation each
--  Sax             libutil/xml.h, xml.cpp
--    Parser        a turn of SaxParser::Parse() in each state, and WriteAll
--    Progress, Ending      how many turns it makes while more may come, and where it makes no end of them
--  Steam           libdbsteam/db.h, db.cpp, rs.h, rs.cpp, query.cpp; libdb/query.h, query.cpp
--    Keys, Index   the maps from a value to the numbers of the records that hold it
--    Numbers       strtoul and the digits of a number
--    State         the members of Database, its constructor and SetFieldInfo, and the map of its records
--    Access        GetInteger, GetString, SetInteger, SetString, AddRecord, Delete
--    Created       what the constructor and SetFieldInfo leave
--    History       any sequence of these calls, from the constructor on; SetFieldInfo only before there are records
--    Query         the tree of a query, Clone, and MatchElement
--    Printing      ToString
--    Rows          SimpleRecordset and IndexedRecordset
--    Ordered       OrderedRecordset, CollateRecordset and the choice in Execute
--    Agrees, Valid, Methods, Deleting, Induction, Ordering, Filled, Sorted   the invariants
--    Views, Writing, Evaluate, Building, WellFormed, Cloning, Scanning, Selecting, Looking, Choosing, Collating
--                  what the calls and the queries give
--    Meaning       what a formula of a query means, in terms of equality and order
--  Media           libmediadb/schema.cpp, allocate_id.cpp
--    Children      the children of an entry as text
--    AllocateId    new ids, out of a gap between those in use
--    FreshId       the same, on a database of libdbsteam
--  Stream          libutil/stream.h, stream.cpp
--    State         the virtual methods of Stream as a record, and SeekableStream
--    Loops         WriteAll, ReadAll, WriteAllAt, ReadLine, CopyStream, DiscardStream
--    Text          libutil/string_stream.cpp
--    Partial       libutil/partial_stream.cpp
--    Memory, Flat  libutil/memory_stream.cpp
--    Lines         libutil/line_reader.cpp
--    Whole, Window what the loops and the parts give on a string
--  Text            the conversions
--    Xml, Quote, UrlText   libutil/xmlescape.cpp, quote_escape.cpp, urlescape.cpp
--    Utf8          libutil/utf8.cpp
--    FileUrl       PathToURL and URLToPath of libutil/file.cpp
--    Paths, PathLaws       the rest of libutil/file.cpp, and names in file_posix.cpp
--    Scan          libutil/scanf64.cpp
--    HttpLines     libutil/http_parser.cpp
--
-- A function keeps its name in the source, with words joined by underscores: QueueRemove is
-- queue_remove. An operation on a state takes it and gives the new one. Option stands for a fault:
-- none is an index out of range, a null database, a modulus of zero, a read out of bounds, or a
-- loop out of rounds. A byte is a number below 256 and a string a list of bytes; unsigned int and
-- size_t wrap at 2^32 and 2^64 where the source can reach that (add32, add64, sub64), and are
-- plain numbers in loops that stay below the length of a list. A call on a stream gives a Reply:
-- the number of an error, or its result.
--
-- The databases, the player, rand() and std::shuffle are outside: a World gives the URL and
-- metadata of an entry and the shuffled order, and what the player and the observers are told is
-- recorded in order in the field calls. The one thing assumed of std::shuffle is that it permutes.
-- Calls of a queue follow one another, as they do under m_mutex; the moments between releasing the
-- mutex and calling SetURL are not interleaved. The tokenizer and the regular expressions of Boost
-- and the calls of the file system are parameters too.
--
-- Loops over a list are recursion on it. Other loops run on fuel, one for each round. XmlUnEscape,
-- Scanf64, the relative paths and the UTF conversions take as many rounds as the text has elements
-- and one more; CopyStream takes one for each byte and one more, GetLine one for each byte of room
-- in the buffer and one more. The results below say where that is enough.
--
-- A Subexpression is a data type in place of a signed number: restriction k is k + 1 and relation
-- k is -(k + 1). A map of the database is a list in the order of its keys. GetInteger and Match
-- give the database back, since they keep parsed numbers in it. MatchElement runs on fuel, a round
-- for each relation and one more; a step of SimpleRecordset takes one round for each record and
-- one more. In place of a recordset, plan gives which one Execute makes. That a client reads a
-- recordset to its end is simple_rows, indexed_rows and collated_rows. A client's positions may be
-- stale: a history takes any position in any call.
--
-- In the parser of XML the buffer is a list, and none is also where m_buffered would wrap below
-- zero. While more may come and the buffer is not full, a loop of Parse() takes at most eight
-- turns for each byte buffered and five more.
--
-- The constant ROUNDUP of MemoryStream, 1 MiB, is an argument of its operations, so that they can
-- be evaluated on small chunks.
--
-- Not modelled: Wait and GetHandle of the streams, the conversions through iconv, the table-driven
-- parser of XML, RenameWithMkdir, the destructors, the tests, and the parts of the repository that
-- drive the network, threads or devices.
pub mod Base
pub mod Media
pub mod Output
pub mod Sax
pub mod Steam
pub mod Stream
pub mod Text
