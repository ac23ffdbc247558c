-- ===== src/Tests.antt =====
-- The theorems at concrete inputs: a log and a snapshot on a disk that fails now and then.
pub mod Stores
pub mod Sessions
pub mod Lives
pub mod Files
pub mod Lines
pub mod Requests
pub mod Failures
pub mod Benchmarks
pub mod Programs
use agent_kv.Prelude.{
  ◌≤◌, Bytes, bytes_eq, bytes_eq_iff, codes, List, [], ◌∷◌, Option, none, some, true, false, ◌≡◌,
  ◌≢◌, sym, ◌∙◌, refl, arith, if◌then◌else◌,
}
use mathlib.Core.Bool.{false≢true}
use agent_kv.Disk.{Disk, Fate, fails, OutStream, Channel}
use agent_kv.Disk.Writes.{Holds}
use agent_kv.Wal.Frame.{Op, put, IsWritable, length-payload-put}
use agent_kv.Wal.Recovery.{frames}

abbrev pub log_path : Bytes
log_path = codes "w"

abbrev pub dump_path : Bytes
dump_path = codes "s"

abbrev pub one_put : Op
one_put = put (codes "k") (codes "v")

pub one_put-IsWritable : IsWritable one_put
one_put-IsWritable = omega (arith, length-payload-put (codes "k") (codes "v"))

-- The file at `log_path` only; the third call that changes a file fails behind two bytes.
abbrev pub log_disk : Bytes → Disk
log_disk bytes = record {
  files = λ p. if bytes_eq log_path p then some bytes else none;
  fates = Fate.done ∷ Fate.done ∷ fails 2 ∷ [];
}

abbrev pub log_channel : Bytes → Channel
log_channel bytes = record {
  output = record { path = log_path; good = true };
  disk = log_disk bytes;
}

pub log_channel-Holds : Holds log_path [] (log_disk []).files (log_channel [])
unfolding bytes_eq
log_channel-Holds = record { target = refl; file = refl; rest = λ q _. refl; bound = omega arith }
