-- ===== src/Tests/Failures.antt =====
-- The theorems on stale, oversized and torn files, and on a store that answers, at concrete files.
use agent_kv.Prelude.{
  ℕ, ◌<◌, ◌≤◌, ◌^◌, ◌++◌, Bytes, bytes_eq, codes, List, [], ◌∷◌, length, take, drop,
  take-append-drop, none, some, true, if◌then◌else◌, ◌≡◌, ◌≢◌, inl, refl, subst, ap, arith,
}
use agent_kv.Exec.{ok, err}
use agent_kv.Map.{Map, insert, erase}
use agent_kv.Disk.{Disk, Channel}
use agent_kv.Disk.Writes.{Holds}
use agent_kv.Disk.Progress.{Went, Went-ok}
use agent_kv.Wal.Emptied.{Emptied, clear-Emptied, clear-Went}
use agent_kv.BinaryIo.{le_bytes}
use agent_kv.Wal
use agent_kv.Wal.Frame.{frame}
use agent_kv.Wal.Append.{append, append-Runs}
use agent_kv.Wal.Recovery.{frames, apply_ops}
use agent_kv.Snapshot.{load, max_field_length}
use agent_kv.Snapshot.Image.{image}
use agent_kv.Snapshot.Oversized.{load_oversized}
use agent_kv.Snapshot.Torn.{load_torn}
use agent_kv.KvStore.{KvStore, World, fresh_store, recover}
use agent_kv.KvStore.Progress.{Ready, Fits}
use agent_kv.KvStore.Liveness.{AllServed, HasRoom, ops_of, serve_all-Ready}
use agent_kv.KvStore.Sessions.{Request, set_entry, delete_entry, take_snapshot, serve_all}
use agent_kv.KvStore.Stale.{recover_interrupted}
use agent_kv.Tests.{log_path, dump_path, one_put, one_put-IsWritable}
use agent_kv.Tests.Files.{
  zeros, length-zeros, two_entries, two_entries-IsStorable, two_entries-IsMap,
}
use agent_kv.Tests.Stores.{apart, apart', one_entry}

zeros-large :
    (n : ℕ)
    → max_field_length < n
    → n < 2 ^ 32
    → (max_field_length < length (zeros n)) × (length (zeros n) < 2 ^ 32)
zeros-large n h h' = (omega (arith, length-zeros n), omega (arith, length-zeros n))

abbrev huge : ℕ
huge = 67108865

abbrev huge_entry : Map
huge_entry = (zeros huge, codes "v") ∷ []

abbrev huge_disk : Disk
huge_disk = record { files = λ _. some (image 7 huge_entry); fates = [] }

load_oversized_example : (e : Bytes) × (load dump_path huge_disk two_entries ≡ err e)
load_oversized_example =
    load_oversized dump_path huge_disk 7 huge_entry two_entries
      (inl (zeros-large huge (omega arith) (omega arith))) (omega arith) (omega arith) refl

abbrev cut : Bytes
cut = take 30 (image 7 two_entries)

abbrev cut_away : Bytes
cut_away = drop 30 (image 7 two_entries)

cut_long : 4 ≤ length cut
unfolding le_bytes image
cut_long = omega arith

cut_away-ne : ◌≢◌ {A = Bytes} cut_away []
unfolding le_bytes image
cut_away-ne e = absurd (omega (arith, ap length e))

abbrev cut_disk : Disk
cut_disk = record { files = λ _. some cut; fates = [] }

load_torn_example : (e : Bytes) × (load dump_path cut_disk [] ≡ err e)
load_torn_example =
    load_torn 7 two_entries two_entries-IsStorable (omega arith) (omega arith) dump_path cut_disk
      cut cut_away [] refl (take-append-drop 30 (image 7 two_entries)) cut_away-ne cut_long

abbrev pub calm_live : World
calm_live = record {
  store = record (fresh_store (record { path = log_path; good = true }) dump_path) {
    entries = one_entry;
  };
  disk = record {
    files = λ p. if bytes_eq log_path p then some (frame one_put) else none;
    fates = [];
  };
}

pub calm_live-Ready : Ready log_path dump_path (frame one_put) one_entry calm_live
unfolding bytes_eq le_bytes
calm_live-Ready = record {
  log = record { path = log_path; good = true };
  wal = refl;
  snapshot = refl;
  map = refl;
  target = refl;
  good = refl;
  holds = refl;
  bound = omega arith;
  calm = refl;
}

abbrev asked : List Request
asked = set_entry (codes "k") (codes "w") ∷ take_snapshot ∷ delete_entry (codes "k") ∷ []

pub one_entry-Fits : Fits one_entry
unfolding le_bytes image
one_entry-Fits = record {
  encodable = (omega arith, omega arith, tt);
  few = omega arith;
  room = λ n. omega arith;
}

answered-HasRoom : HasRoom (frame one_put) one_entry (ops_of asked)
unfolding le_bytes insert erase bytes_eq image ops_of
answered-HasRoom = (
  record {
    writable = omega arith;
    log = omega arith;
    fits = record {
      encodable = (omega arith, omega arith, tt);
      few = omega arith;
      room = λ n. omega arith;
    };
  },
  (
    record {
      writable = omega arith;
      log = omega arith;
      fits = record { encodable = tt; few = omega arith; room = λ n. omega arith };
    },
    tt,
  ),
)

serve_all-Ready_example :
    AllServed asked calm_live
    × Ready log_path dump_path
        (frame one_put ++ frames (ops_of asked))
        (apply_ops (ops_of asked) one_entry)
        (serve_all asked calm_live)
serve_all-Ready_example =
    serve_all-Ready apart apart' asked calm_live answered-HasRoom one_entry-Fits calm_live-Ready

-- A log and a snapshot that covers more bytes than a short record has.
abbrev old_channel : Channel
old_channel = record {
  output = record { path = log_path; good = true };
  disk = record {
    files = λ p. if bytes_eq log_path p then some (codes "old") else some (image 99 two_entries);
    fates = [];
  };
}

abbrev cleared_channel : Channel
cleared_channel = (Wal.clear old_channel).1

cleared : Wal.clear old_channel ≡ (ok tt, cleared_channel)
cleared = Went-ok (Wal.clear old_channel) (clear-Went old_channel refl)

emptied :
    (cleared_channel.output.good ≡ true) × Holds log_path [] old_channel.disk.files cleared_channel
emptied = subst (Emptied log_path old_channel.disk.files) cleared (clear-Emptied old_channel)

abbrev appended_channel : Channel
appended_channel = (append one_put cleared_channel).1

appended : append one_put cleared_channel ≡ (ok tt, appended_channel)
unfolding le_bytes
appended =
    let calm = subst Went cleared (clear-Went old_channel refl) in
    Went-ok (append one_put cleared_channel) (
      (append-Runs one_put one_put-IsWritable).goes [] cleared_channel emptied.0 emptied.1 calm
        (omega arith))

abbrev fresh : KvStore
fresh = fresh_store (record { path = log_path; good = true }) dump_path

recover_interrupted_example :
    recover log_path dump_path (record { store = fresh; disk = appended_channel.disk }) ≡ (
      ok (record { loaded = true; entry_count = 2; wal_offset = 99 }, 0),
      record { store = record fresh { entries = two_entries }; disk = appended_channel.disk },
    )
unfolding bytes_eq le_bytes
recover_interrupted_example =
    recover_interrupted dump_path old_channel cleared_channel appended_channel fresh 99 two_entries
      one_put apart refl two_entries-IsStorable two_entries-IsMap (omega arith) (omega arith)
      cleared one_put-IsWritable appended (omega arith) refl
