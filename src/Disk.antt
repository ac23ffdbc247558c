-- ===== src/Disk.antt =====
-- The files that the persistence code reads and writes, and its output streams, as the standard
-- library provides them. Each call that changes a file has a fate that the environment chooses:
-- a list of fates covers full disks, refused paths and failing renames. Reads always succeed.
pub mod Writes
pub mod Moves
pub mod Progress
use agent_kv.Prelude.{ℕ, ◌+◌, ◌-◌, ◌^◌, Bytes, bytes_eq, codes, List, [], ◌∷◌, ◌++◌, length, take}
use agent_kv.Prelude.{Option, none, some, Bool, true, false, leb, if◌then◌else◌}
use agent_kv.Exec.{Exec, Result, ok, err}

-- A call goes through, or fails after it has delivered so many bytes.
pub data Fate : Type 0 where
  done : Fate
  fails : ℕ → Fate

pub record Disk : Type 0 where
  pub files : Bytes → Option Bytes
  pub fates : List Fate

-- With no fate left, calls go through.
abbrev pub next_fate : List Fate → Fate
next_fate [] = done
next_fate (f ∷ fs) = f

abbrev pub later_fates : List Fate → List Fate
later_fates [] = []
later_fates (f ∷ fs) = fs

abbrev pub or_empty : Option Bytes → Bytes
or_empty none = []
or_empty (some bytes) = bytes

abbrev pub contents : Disk → Bytes → Bytes
contents d path = or_empty (d.files path)

abbrev pub update : (Bytes → Option Bytes) → Bytes → Option Bytes → Bytes → Option Bytes
update files path file other = if bytes_eq path other then file else files other

-- The fate of one call is used up.
abbrev pub tick : Disk → Disk
tick d = record d { fates = later_fates d.fates }

abbrev pub set_file : Bytes → Option Bytes → Disk → Disk
set_file path file d = record d { files = update d.files path file }

-- `std::ofstream`: the file that it writes at its end, and `operator bool`. A stream that failed to
-- open, or is closed, is not good. Bytes reach the file when they are written.
pub record OutStream : Type 0 where
  pub path : Bytes
  pub good : Bool

pub record Channel : Type 0 where
  pub output : OutStream
  pub disk : Disk

-- The largest `std::streamoff`; no file grows past it.
abbrev pub max_offset : ℕ
max_offset = 2 ^ 63 - 1

abbrev pub fail_stream : Channel → Channel
fail_stream c = record c { output = record { path = c.output.path; good = false } }

abbrev pub append_file : Bytes → Channel → Channel
append_file bytes c = record c {
  disk = set_file c.output.path (some (contents c.disk c.output.path ++ bytes)) c.disk;
}

land : Fate → Bytes → Channel → Channel
land done bytes c = append_file bytes c
land (fails k) bytes c = fail_stream (append_file (take k bytes) c)

-- A write that would pass the largest offset fails.
pub deliver : Fate → Bytes → Channel → Channel
unfolding land
deliver fate bytes c =
    if leb (length (contents c.disk c.output.path) + length bytes) max_offset
    then land fate bytes c
    else fail_stream c

-- `output.write`: nothing is written to a stream that is not good.
unfoldable pub write : Bytes → Channel → Channel
unfolding deliver
write bytes c =
    if c.output.good
    then deliver (next_fate c.disk.fates) bytes (record c { disk = tick c.disk })
    else c

pub settle : Fate → Channel → Channel
settle done c = c
settle (fails k) c = fail_stream c

-- `output.flush()`, `output.seekp(0, std::ios::end)`: they fail or do nothing to the files.
unfoldable pub sync : Channel → Channel
unfolding settle
sync c =
    if c.output.good then settle (next_fate c.disk.fates) (record c { disk = tick c.disk }) else c

unfoldable pub told : Fate → Bytes → Channel → Result ℕ × Channel
told done message c = (ok (length (contents c.disk c.output.path)), c)
told (fails k) message c = (err message, c)

-- `output.tellp()` behind a seek to the end, where the caller throws for the position -1. The file's
-- length is the position of its end. A call that fails leaves the stream as it is.
unfoldable pub tell : Bytes → Exec Channel ℕ
unfolding told
tell message c =
    if c.output.good
    then told (next_fate c.disk.fates) message (record c { disk = tick c.disk })
    else (err message, c)

opened : Fate → Option Bytes → Bytes → Disk → Channel
opened done file path d = record {
  output = record { path = path; good = true };
  disk = set_file path file d;
}
opened (fails k) file path d = record { output = record { path = path; good = false }; disk = d }

-- `std::ofstream(path, std::ios::binary | std::ios::app)`
unfoldable pub open_app : Bytes → Disk → Channel
unfolding opened
open_app path d = opened (next_fate d.fates) (some (contents d path)) path (tick d)

-- `std::ofstream(path, std::ios::binary | std::ios::trunc)`
unfoldable pub open_trunc : Bytes → Disk → Channel
unfolding opened
open_trunc path d = opened (next_fate d.fates) (some []) path (tick d)

-- What `std::remove` reports, with `errno`.
pub data Removal : Type 0 where
  removed no_entry refused : Removal

unfoldable pub removal : Fate → Option Bytes → Bytes → Disk → Removal × Disk
removal (fails k) file path d = (refused, d)
removal done none path d = (no_entry, d)
removal done (some bytes) path d = (removed, set_file path none d)

unfoldable pub remove : Bytes → Disk → Removal × Disk
unfolding removal
remove path d = removal (next_fate d.fates) (d.files path) path (tick d)

renamed : Fate → Option Bytes → Bytes → Bytes → Disk → Bool × Disk
renamed (fails k) file from to d = (false, d)
renamed done none from to d = (false, d)
renamed done (some bytes) from to d = (true, set_file to (some bytes) (set_file from none d))

-- `std::rename(from, to) == 0`: the target is replaced in one step.
unfoldable pub rename : Bytes → Bytes → Disk → Bool × Disk
unfolding renamed
rename from to d = renamed (next_fate d.fates) (d.files from) from to (tick d)

-- An operation on a stream as a step that does not throw.
abbrev pub modify : (Channel → Channel) → Exec Channel (Unit {0})
modify f c = (ok tt, f c)

-- `if (!output) throw …`
unfoldable pub require_good : Bytes → Exec Channel (Unit {0})
require_good message c = if c.output.good then (ok tt, c) else (err message, c)
