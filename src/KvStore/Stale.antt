-- ===== src/KvStore/Stale.antt =====
-- A snapshot whose offset lies behind the end of the log, as a `ClearPersistence` leaves it that
-- stops between the log and the snapshot: what is logged from then on is passed over.
use agent_kv.Prelude.{
  ℕ, ◌≤◌, ◌<◌, ◌^◌, Bytes, [], length, Option, some, subst, true, ◌≡◌, ◌≢◌, ◌∙◌, arith,
}
use agent_kv.Exec.{Result, ok}
use agent_kv.Map.{Map, IsMap}
use agent_kv.Disk.{Disk, Channel, max_offset}
use agent_kv.Disk.Writes.{Holds, Wrote}
use agent_kv.Snapshot.Image.{image, IsStorable}
use agent_kv.Snapshot.Load.{load-image}
use agent_kv.Wal
use agent_kv.Wal.Frame.{Op, frame, IsWritable}
use agent_kv.Wal.Append.{append, append-Wrote}
use agent_kv.Wal.Emptied.{Emptied, clear-Emptied}
use agent_kv.Wal.Lost.{replay_from_behind}
use agent_kv.KvStore.{KvStore, recover}
use agent_kv.KvStore.Recovery.{recover-ok}

recover_stale :
    (wal_path snapshot_path : Bytes) (d : Disk) (k : KvStore) (n : ℕ) (base : Map) (log : Bytes)
    → d.files snapshot_path ≡ some (image n base)
    → IsStorable base
    → IsMap base
    → length base < 2 ^ 32
    → d.files wal_path ≡ some log
    → length log ≤ n
    → n ≤ max_offset
    → k.entries ≡ []
    → recover wal_path snapshot_path (record { store = k; disk = d }) ≡ (
      ok (record { loaded = true; entry_count = length base; wal_offset = n }, 0),
      record { store = record k { entries = base }; disk = d },
    )
recover_stale wal_path snapshot_path d k n base log snap storable map few file short small empty =
    recover-ok wal_path snapshot_path (record { store = k; disk = d })
      (load-image snapshot_path d n base k.entries snap storable map few (omega arith))
      (replay_from_behind wal_path d n log base file short small)

-- What was acknowledged to the caller: the bytes are in the log.
acknowledged :
    (wal_path bytes : Bytes) (others : Bytes → Option Bytes) (r : Result (Unit {0}) × Channel)
    (c : Channel)
    → r ≡ (ok tt, c)
    → Wrote wal_path [] bytes others r
    → Holds wal_path bytes others c
acknowledged wal_path bytes others r c e w = (subst (Wrote wal_path [] bytes others) e w).1

-- `ClearPersistence` has cleared the log and the process dies before the snapshot, of any map, is
-- removed. An operation whose record is no longer than the offset in that snapshot is then appended
-- and acknowledged: a restart recovers the old map of the snapshot and not the operation.
pub recover_interrupted :
    (snapshot_path : Bytes) (c c₁ c₂ : Channel) (k : KvStore) (n : ℕ) (base : Map) (op : Op)
    → c.output.path ≢ snapshot_path
    → c.disk.files snapshot_path ≡ some (image n base)
    → IsStorable base
    → IsMap base
    → length base < 2 ^ 32
    → n ≤ max_offset
    → Wal.clear c ≡ (ok tt, c₁)
    → IsWritable op
    → append op c₁ ≡ (ok tt, c₂)
    → length (frame op) ≤ n
    → k.entries ≡ []
    → recover c.output.path snapshot_path (record { store = k; disk = c₂.disk }) ≡ (
      ok (record { loaded = true; entry_count = length base; wal_offset = n }, 0),
      record { store = record k { entries = base }; disk = c₂.disk },
    )
recover_interrupted snapshot_path c c₁ c₂ k n base op apart snap storable map few small cleared w
      appended short empty =
    let (up, h) = subst (Emptied c.output.path c.disk.files) cleared (clear-Emptied c) in
    let h' =
      acknowledged c.output.path (frame op) c.disk.files (append op c₁) c₂ appended
        (append-Wrote op c₁ up h w) in
    recover_stale c.output.path snapshot_path c₂.disk k n base (frame op)
      (h'.rest snapshot_path apart ∙ snap) storable map few h'.file short small empty
