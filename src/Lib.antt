-- ===== src/Lib.antt =====
-- hx_clog, a logging library in C: the parts that decide what is logged, where and in which bytes.
--
-- A line of the program is a record that is printed by a pattern or as JSON into a buffer on the stack,
-- and once more into one on the heap if it does not fit. In the asynchronous mode its text goes through
-- a bounded queue to a worker thread, which hands it to the sinks; the file sink rotates its file before
-- it writes. A ring in memory keeps the last lines for a crash report. The parts and their files:
--
--   * Level, Status: the levels and their names, in src/hx_clog_core.c and src/hx_clog_format.c, and
--     the result codes of include/hx_clog.h.
--   * Format: src/hx_clog_format.c. Appender has the functions `ap_*` on the caller's memory, Pattern
--     has `hx_format_record` and Json `hx_format_json_record`. View is the relation of an appender
--     to the text that it was given, Buffer the memory that is left in the end, Decimal the numbers.
--     Retry has `format_line` and `format_with_retry` of src/hx_clog_core.c.
--   * CrashRing: `hx_ring_*` of src/hx_clog_core.c.
--   * CrashCallback: `hx_clog_set_crash_callback` and `hx_crash_get_callback` of src/hx_clog_core.c, as
--     steps of two threads.
--   * Async: src/hx_clog_async.c. Async has the engine and `hx_async_enqueue`, Worker the pieces of
--     `worker_main` between two releases of the lock, Life start, flush, stop and fork. Window tells
--     which lines the ring of slots holds, Bounded is the queue that it stands for, and Fifo has the
--     steps of the threads as a relation.
--   * Rotate: src/hx_clog_rotate.c. Rotate has the names of archives, Match their recognition,
--     Scan and Recognise read the name of an archive back, Cleanup is `hx_rotate_cleanup`.
--   * FileSink: src/hx_clog_file.c and `hx_rotate_maybe` and `hx_rotate_force` of src/hx_clog_rotate.c.
--     Disk has the bytes of the files, told from the renames and the writes.
--   * Logger: the registry of named loggers in src/hx_clog_core.c; Inherit has the level of a new one,
--     Prefix the levels of a prefix, Again the calls in between two calls for one name.
--   * Sink: src/hx_clog_sink.c and the list of the sinks in src/hx_clog_core.c. Sink has a sink and what
--     a line does at it, Registry the calls that change the list and hand out lines, Parts,
--     Invariant and Valid what they keep, Emit and Reach which sinks a line reaches, and Shown what
--     it has to do there.
--   * Settings: the format settings of src/hx_clog_core.c and the snapshot that each thread keeps.
--   * Dispatch: `core_dispatch_line` and `core_dispatch_record` of src/hx_clog_core.c; Direct has the
--     way of lines straight to the sinks, Queued that into the queue.
--   * Duplicates: the suppression of duplicates in src/hx_clog_core.c. Events has the calls with their
--     output, Keys what an output with summaries tells.
--   * Write: `core_writev` of src/hx_clog_core.c, with `hx_clog_flush` and `dup_emit_summary`, which it
--     can bring. What the worker hands out while a flush waits for it is an answer of the environment;
--     a line that has to wait for room in the queue is not followed further here. Named has the calls by a name and through a logger.
--   * Net: src/hx_clog_net.c. Loop sends a line in parts, Ways has the branches of `net_write`.
--   * Setup: `hx_clog_config_t`, its defaults and the environment.
--   * Lifecycle: `hx_clog_init`, `hx_clog_reconfigure`, `hx_clog_shutdown` and the calls that add sinks,
--     in src/hx_clog_core.c. Begin is init, Change what happens until the end, Access the smaller
--     calls. Benign and Keeps tell that lines and flushes close no sink, Owned and
--     Account which sinks are made and closed, FromFile is `hx_clog_init_from_file`.
--   * Config: the ini file that sets the configuration, in src/hx_clog_core.c; Keys is the table of its
--     keys, Sizes has the numbers with a unit.
--   * Context: the context of a thread in src/hx_clog_core.c.
--   * Common: lists and tests over the native numbers, and whole numbers.
--
-- Texts and memory are lists of bytes; a text has no NUL at its end. A 32- or 64-bit number keeps its
-- wrap-around written out where it can happen. The allocator, the local time, the calls of the file
-- system and the application's formatter are parameters: functions, or a record of answers. A function
-- that holds a lock is one step; where it waits or gives the lock up, it is cut into the pieces
-- between. The only fuel is that of the loops that double a capacity: 33 rounds, after which such a
-- number is large enough or has become 0; that of the loop over the dots of a logger's name, which is
-- its buffer's size; that of the deliveries, 2, which a FATAL record, its flush and the summary of
-- duplicates use up; and the rooms of the digit loops, which are the sizes of
-- the buffers in the code.
--
-- The names in a directory are taken to have numbers that an `int` holds, dates to be those of a
-- calendar with four digits for the year, and times not to be negative. The lock of the file sink, the
-- standard library's streams and zlib are not modelled. Not modelled are the parts that only call the
-- system (threads, terminals, signal handlers, dumps, the services for system logs).
pub mod Common
pub mod Level
pub mod Format
pub mod CrashRing
pub mod CrashCallback
pub mod Status
pub mod Async
pub mod Rotate
pub mod FileSink
pub mod Context
pub mod Logger
pub mod Config
pub mod Sink
pub mod Dispatch
pub mod Duplicates
pub mod Settings
pub mod Setup
pub mod Lifecycle
pub mod Net
pub mod Write
