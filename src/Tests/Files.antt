-- ===== src/Tests/Files.antt =====
-- The theorems on the log and the snapshot, at concrete files.
use agent_kv.Prelude.{
  ℕ, zero, suc, ◌<◌, ◌≤◌, ◌%◌, ◌^◌, Bytes, bytes_eq, codes, [], ◌∷◌, ◌++◌, length, some, true, ◌≡◌,
  ◌≢◌, refl, ap, arith,
}
use agent_kv.Exec.{ok}
use agent_kv.Map.{Map, lookup, IsMap}
use agent_kv.Disk.{Disk}
use agent_kv.Disk.Writes.{Wrote}
use agent_kv.BinaryIo.{le_bytes}
use agent_kv.Wal.Frame.{Op, IsWritable}
use agent_kv.Wal.Lost.{replay_from_lost}
use agent_kv.Prelude.{take, drop, take-append-drop}
use agent_kv.Wal.{max_record_length, replay_loop, replay_from}
use agent_kv.Wal.Frame.{put, remove, payload, frame, length-payload-put}
use agent_kv.Wal.Append.{append, append-Wrote}
use agent_kv.Wal.Replay.{replay_loop_total}
use agent_kv.Wal.Recovery.{
  records, fold_records, frames, apply_ops, IsTorn, smallest-IsWritable, replay_from-records,
  replay_from-frames,
}
use agent_kv.Snapshot.{load, save}
use agent_kv.Snapshot.Image.{image, IsStorable, IsStorable-IsEncodable}
use agent_kv.Snapshot.Save.{Saved, save-Saved}
use agent_kv.Snapshot.Load.{load-image}
use agent_kv.Wal.Safe.{IsKept, replay_from-IsKept}
use agent_kv.Wal
use agent_kv.Tests.{
  log_path, dump_path, one_put, one_put-IsWritable, log_disk, log_channel, log_channel-Holds,
}

append-Wrote_example :
    Wrote log_path [] (frame one_put) (log_disk []).files (append one_put (log_channel []))
append-Wrote_example =
    append-Wrote one_put (log_channel []) refl log_channel-Holds one_put-IsWritable

pub zeros : ℕ → Bytes
zeros zero = []
zeros (suc n) = 0 ∷ zeros n

pub length-zeros : (n : ℕ) → length (zeros n) ≡ n
unfolding zeros
length-zeros zero = refl
length-zeros (suc n) = ap suc (length-zeros n)

zeros-large :
    (n : ℕ) → max_record_length ≤ n → max_record_length < length (payload (put [] (zeros n)))
zeros-large n h = omega (arith, length-payload-put [] (zeros n), length-zeros n)

le_refl : (n : ℕ) → n ≤ n
le_refl n = omega arith

abbrev large : ℕ
large = max_record_length

replay_loop_total_example : (r : ℕ × Map) × (replay_loop 9 (codes "torn") 0 [] ≡ some r)
replay_loop_total_example = replay_loop_total 9 (codes "torn") 0 [] (omega arith)

-- One byte short of the smallest record.
abbrev front : Bytes
front = 5 ∷ 0 ∷ 0 ∷ 0 ∷ 2 ∷ 0 ∷ 0 ∷ 0 ∷ []

front-joined : front ++ (0 ∷ []) ≡ frame (remove [])
unfolding le_bytes
front-joined = refl

some_missing : ◌≢◌ {A = Bytes} (0 ∷ []) []
some_missing e = absurd (omega (arith, ap length e))

front-IsTorn : IsTorn (remove []) front
front-IsTorn = record {
  writable = smallest-IsWritable;
  missing = 0 ∷ [];
  joined = front-joined;
  ne_nil = some_missing;
}

-- A record of an unknown operation, between nothing and a torn one.
replay_from-records_example :
    replay_from log_path (log_disk (records (codes "?" ∷ []) ++ front)) 0 []
    ≡ ok (fold_records (codes "?" ∷ []) (0, []))
unfolding bytes_eq
replay_from-records_example =
    replay_from-records log_path (log_disk (records (codes "?" ∷ []) ++ front)) [] (codes "?" ∷ [])
      (remove []) front [] refl (omega arith) (omega arith, tt) front-IsTorn

replay_from-frames_example :
    replay_from log_path (log_disk (frames (one_put ∷ []) ++ front)) 0 []
    ≡ ok (1 % 2 ^ 64, apply_ops (one_put ∷ []) [])
unfolding bytes_eq
replay_from-frames_example =
    replay_from-frames log_path (log_disk (frames (one_put ∷ []) ++ front)) [] (one_put ∷ [])
      (remove []) front [] refl (omega arith) (one_put-IsWritable, tt) front-IsTorn

abbrev pub two_entries : Map
two_entries = (codes "k", codes "v") ∷ (codes "a", codes "b") ∷ []

pub two_entries-IsStorable : IsStorable two_entries
two_entries-IsStorable = (omega arith, omega arith, (omega arith, omega arith, tt))

pub two_entries-IsMap : IsMap two_entries
unfolding lookup bytes_eq
two_entries-IsMap = (refl, (refl, tt))

save-Saved_example :
    Saved dump_path two_entries 7 (log_disk []) (save dump_path two_entries 7 (log_disk []))
save-Saved_example =
    save-Saved dump_path two_entries 7 (log_disk [])
      (IsStorable-IsEncodable two_entries two_entries-IsStorable)

abbrev saved_disk : Disk
saved_disk = record { files = λ _. some (image 7 two_entries); fates = [] }

load-image_example :
    load dump_path saved_disk []
    ≡ ok (record { loaded = true; entry_count = 2; wal_offset = 7 }, two_entries)
load-image_example =
    load-image dump_path saved_disk 7 two_entries [] refl two_entries-IsStorable two_entries-IsMap
      (omega arith) (omega arith)

-- A DELETE that was acknowledged, behind five bytes of a longer record.
abbrev long_put : Op
long_put = put (codes "k") (codes "a long value")

long_put-IsWritable : IsWritable long_put
long_put-IsWritable = omega (arith, length-payload-put (codes "k") (codes "a long value"))

abbrev five : Bytes
five = take 5 (frame long_put)

abbrev lacking : Bytes
lacking = drop 5 (frame long_put)

five_long : 4 ≤ length five
unfolding le_bytes
five_long = omega arith

delete_short : length (frame (remove [])) < length lacking
unfolding le_bytes
delete_short = omega arith

abbrev resumed : Disk
resumed = log_disk (frames (one_put ∷ []) ++ (five ++ frame (remove [])))

replay_from_lost_example :
    replay_from log_path resumed 0 [] ≡ ok (1 % 2 ^ 64, apply_ops (one_put ∷ []) [])
unfolding bytes_eq
replay_from_lost_example =
    replay_from_lost log_path resumed [] (one_put ∷ []) long_put five lacking (frame (remove [])) []
      refl (omega arith) (one_put-IsWritable, tt) long_put-IsWritable
      (take-append-drop 5 (frame long_put)) five_long delete_short

-- A log of bytes that are no frames.
abbrev scrambled_disk : Disk
scrambled_disk = record { files = λ _. some (codes "no log at all"); fates = [] }

replay_from-IsKept_example :
    (n : ℕ) × (m : Map) × (Wal.replay_from log_path scrambled_disk 3 two_entries ≡ ok (n, m))
    × IsKept m
replay_from-IsKept_example =
    replay_from-IsKept log_path scrambled_disk 3 two_entries (omega arith)
      (two_entries-IsStorable, two_entries-IsMap)
