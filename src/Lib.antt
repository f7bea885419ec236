-- ===== src/Lib.antt =====
-- qtfra is a Go support library. These modules model its parts and prove what makes them
-- correct. Paths are from the repository's root.
--
-- The parts and how they meet. buf/ has buffers over byte slices, whose arrays come from an
-- allocator of pools. ex/ makes and joins errors. enhancements/ has helpers on slices and maps,
-- and iolib, which puts buffers in front of readers and writers, copies between them and counts
-- the bytes that pass. threads/ has a hub that sends values to subscribers, and a group that
-- runs tasks. registry/ finds services in a context, services/ starts and closes them. log/ has
-- a logger with options and metadata, and loghandler/ below it writes a line for each record
-- through a buffered writer of iolib. sys/sysmetrics collects the system's counters in producers
-- that it runs as a group. values/ has defaults and bounds.
--
-- Which module models which code:
--   Common         what the modules share: tests, lists, 64-bit ints (Words), maps, outcomes of
--                  calls
--   Buf.Slice      a byte slice: an array, its length, its capacity
--   Buf.Alloc      buf/alloc.go: get_array is Get, put_array is Put
--   Buf.Buffer     buf/buffer.go, a function for each method; Buf.Buffer.Stream has those that
--                  call a reader or a writer; Buf.Buffer.Pipe is the abstract buffer
--   Buf.Pool       buf/pool.go
--   Ex             ex/: error values, Cause, Errors, IsMulti
--   Slicelib       enhancements/slicelib/slices.go
--   Maplib         enhancements/maplib/
--   Iolib.BufWriter, Iolib.Cache, Iolib.Counter, Iolib.Closers enhancements/iolib/rw.go,
--                  cache.go, counter/, and close.go with underlay/
--   Iolib.Copy     enhancements/iolib/copy.go and handshake.go: write_buffers is the loop over
--                  the caches in copyEarly
--   Iolib.Splice   enhancements/iolib/splice_linux.go: splice as what its calls answer makes of
--                  it
--   Threads.SubHub threads/sub.go: subscribe, unsubscribe, publish_n, and close_subscriber for a
--                  subscriber's own Unsubscribe
--   Threads.Group  threads/group.go: Run of the code is the relation Step on the record Run
--   Registry       registry/context.go
--   Services       services/inf.go
--   Sysmetrics     sys/sysmetrics/: net, load_avg, load_misc, mem and uptime are the producers
--                  of Start, run_ended is its end
--   Log.Attrs      the attributes of log/slog, by the kinds that the code tells apart
--   Log.Feature    log/feature.go and log/option.go: with_args is With
--   Log.Levels     log/move.go and log/format.go: parse_level is ParseLevel
--   Log.Calls      log/feature.go: log, with the state of its handler
--   Log.Loggers    log/move.go: with_logger is With and group_logger is WithGroup;
--                  log/factory.go
--   Log.Metadata   log/metadata.go
--   Log.Console    log/loghandler/: State is consle_state.go, Handler and Handle are
--                  console_handler.go, Builder is builder.go; Rendered is the line of a record
--                  as a text
--   Values         values/defaults.go
--
-- How the code is read. An int is its 64-bit pattern where overflow matters. A method takes its
-- receiver's state and returns its results with the next state; a call that may panic returns an
-- Outcome. A method that holds its mutex is one step; the goroutines of a Run take steps in any
-- order. Readers, writers, slog handlers and the methods of a service are functions on a state
-- of theirs, and what the theorems ask of them is what Go documents: io.Reader and io.Writer do
-- not claim more bytes than they were given. A sync.Pool hands out any value that it holds, or a
-- new one, by an argument. The order of a range over a map is an argument too. A nil receiver,
-- and the difference between a nil slice and an empty one, are not modelled. A string is the
-- list of its bytes where its text matters.
--
-- Fuel. ReadFrom and WriteTo of a buffer take a number of rounds: a hundred and two for each
-- byte and a hundred and one more are enough, since a round moves a byte or counts as one of at
-- most a hundred and one in a row without progress. A flush takes the same, and so does each
-- cache that copyEarly writes; Handle flushes a buffer of 16384 bytes. UnwrapWriterCounter takes
-- as many rounds as the stack is high, unless it never ends; PickReaderCacheList takes one more
-- than there are caches.
--
-- Bounds of the runtime. make of more than 2^48 bytes panics, as on a 64-bit Linux; that the
-- memory is there is assumed. The counter of subscriber ids is a package variable that its hubs
-- change one after the other.
--
-- Not modelled: the tables of operating systems (sys/sysvars/), the default logger of log/,
-- which is global state, and enhancements/singleflight, which is a copy of golang.org/x/sync.
pub mod Buf
pub mod Common
pub mod Ex
pub mod Iolib
pub mod Log
pub mod Maplib
pub mod Registry
pub mod Services
pub mod Slicelib
pub mod Sysmetrics
pub mod Threads
pub mod Values
