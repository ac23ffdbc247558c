-- ===== src/Lib.antt =====
-- AgentKV, a persistent key-value store: a map in memory, a write-ahead log that every mutation is
-- appended to first, snapshots that cover the log up to an offset, and a prompt that drives it.
--
-- Parts, and the code that each models:
--   BinaryIo     include/persistence/binary_io.h: WritePrimitive, ReadPrimitive, WriteBytes,
--                CheckedSize, ConsumePrimitive, ConsumeBytes, under the names in snake case.
--   Wal          src/persistence/wal.cpp: the constructor (open_log), AppendSet, AppendDelete,
--                CurrentOffset, Clear, Replay and ReplayFrom. The object is its output stream.
--                Frame says what a record is, Open, Append, Offset and Emptied what the writers do,
--                Replay, Recovery, Lost and Safe what is read back.
--   Snapshot     src/persistence/snapshot.cpp: Save, Clear, Load. The object is its path. Image is
--                the format of the file, Save, Erased and Progress what the writers do, Load, Torn and
--                Oversized what is read back or refused.
--   KvStore      src/store/kv_store.cpp, every method, and the start of src/main.cpp (recover,
--                start). A World is a store and the disk that its log and its snapshot write to.
--                Durable is the invariant; Logging, Locate, Checkpoint, Parted and Requests are about
--                each step, Recovery, Sessions, Cleared, Stale and Repaired about a restart. Life has
--                the store over many processes as a step relation, with what it stands for: the map in
--                memory and what outlives the process (Behind). Between and Survives say what holds of
--                it, Starting which disks a start finds in order. Progress, Liveness, Emptying and
--                Restart are about disks where no call is to fail, Entries and Effects about the map
--                alone, Good about the log's stream.
--   StringUtils  src/common/string_utils.cpp: Trim, SplitWhitespaceView, ToUpper, in the C locale.
--   CliParser    src/parser/cli_parser.cpp: a line to a Command. Render has the lines that ask for a
--                command, Fields what a command holds.
--   CliServer    src/server/cli_server.cpp: Execute and Run over the lines of the input. Spec has
--                the dictionary that a session stands for, Refines the sessions over any disk, Room,
--                Calm and Reopened those over a disk where no call is to fail, Session the requests
--                to the store.
--   Json         src/parser/validation_helpers.cpp (Helpers), action_validation.cpp (Actions),
--                json_enforcer.cpp (Enforcer) and the JSON mode of src/main.cpp (Mode), over
--                nlohmann::json as a parameter, JsonLib; Shape, Checks and Accepts say which requests
--                pass, Guarded what of the library the results rest on.
--   Program      src/main.cpp, main: its messages, the JSON mode and the prompt.
--   Bench        bench/benchmark_utils.cpp (Decimal, Utils), bench/workloads.cpp (Workloads, Runs) and
--                bench/benchmark.cpp (Options, Report), over the store. The clock, the generator,
--                the room of containers and the directories are those of a Machine, and double is a parameter, Doubles.
--                Causes says what a run may throw, Kept what stays durable meanwhile. The sequence of
--                std::mt19937 and the clock's readings may be any.
--   Map, Disk    What the code uses of the standard library: std::unordered_map, output streams and
--                files. Map/Table has maps up to the order of their entries, as a quotient. Exec is
--                the monad of calls that may throw, over a state; Prelude the shared names, strings
--                as lists of bytes, and list lemmas.
--   Tests        The theorems at concrete inputs.
--
-- How they interact: CliServer parses a line with CliParser, which splits it with StringUtils, and
-- calls the store; a mutation of the store appends to the log, changes the map, and from the
-- thousandth write on saves a snapshot with the log's offset. At the start the snapshot is loaded
-- and the log is replayed from that offset. The JSON mode validates one request and stores nothing.
--
-- Conventions. An exception is `err` with its message; the state that it leaves is returned with it.
-- Every call on a file has a fate, done or failing behind some bytes, in a list that the environment
-- chooses, so a statement about all disks is a statement about all such failures. A stream that
-- failed is not good and writes nothing more. Bytes reach the file when they are written: the
-- stream's buffer and what a machine that loses power forgets are not modelled. A crash between two
-- calls is the disk as it is between them. Reads see the file as it is and do not fail.
--
-- Numbers are written out modulo their width: sizes and counts on disk modulo 2 ^ 32, counters modulo
-- 2 ^ 64. A primitive has the byte order of a little-endian host. An offset is at most 2 ^ 63 - 1,
-- and no file grows past it. The loops of ReplayFrom and SplitWhitespaceView run on fuel, one more
-- than the bytes of the input; each round takes a byte at least. A number of 64 bits is printed with
-- at most 20 digits. The other loops are structural.
--
-- What nlohmann::json does is a parameter: `parse` returns a value, throws a parse_error, which the
-- code catches, or throws another exception, which leaves main; `dump` returns a text or throws.
-- The path of temporary files and each `reserve` of the benchmarks are parameters that may throw.
--
-- A WriteAheadLog whose Clear has thrown has a closed stream whose state is cleared; the model has a
-- failed one. Neither takes a byte more; only the message of a later CurrentOffset is another.
--
-- Not modelled: nlohmann::json itself, and the text that it dumps; tests and scripts. Memory that
-- can not be allocated is modelled for no call but `reserve`.
pub mod Prelude
pub mod Exec
pub mod Map
pub mod Disk
pub mod BinaryIo
pub mod Wal
pub mod Snapshot
pub mod KvStore
pub mod StringUtils
pub mod CliParser
pub mod CliServer
pub mod Json
pub mod Bench
pub mod Program
pub mod Tests
