-- ===== src/KvStore.antt =====
-- src/store/kv_store.cpp, class KVStore, and the recovery that src/main.cpp runs at start: the map
-- in memory, the log and the snapshot that it writes to, and the disk that these share.
pub mod Content
pub mod Durable
pub mod Logging
pub mod Locate
pub mod Checkpoint
pub mod Behind
pub mod Parted
pub mod Requests
pub mod Recovery
pub mod Sessions
pub mod Cleared
pub mod Stale
pub mod Progress
pub mod Liveness
pub mod Restart
pub mod Entries
pub mod Effects
pub mod Emptying
pub mod Life
pub mod Starting
pub mod Between
pub mod Survives
pub mod Repaired
pub mod Good
use agent_kv.Prelude.{
  ℕ, ◌+◌, ◌%◌, ◌^◌, Bytes, [], Option, none, some, Bool, true, false, leb, if◌then◌else◌,
}
use agent_kv.Exec.{Result, ok, err, Exec, pure, gets, ◌>>=◌, ◌>>◌}
use agent_kv.Map.{Map, lookup, insert, erase}
use agent_kv.Prelude.{length}
use agent_kv.Disk.{Disk, OutStream, Channel}
use agent_kv.Wal
use agent_kv.Snapshot
use agent_kv.Snapshot.{LoadResult}

-- The pointers may be null; the snapshot object is its path.
pub record KvStore : Type 0 where
  pub entries : Map
  pub wal : Option OutStream
  pub snapshot : Option Bytes
  pub writes_since_snapshot : ℕ

pub record World : Type 0 where
  pub store : KvStore
  pub disk : Disk

-- `kSnapshotInterval`
abbrev pub snapshot_interval : ℕ
snapshot_interval = 1000

-- An operation of the log, which `store` and the caller share.
unfoldable pub on_wal {ℓ} :
    {A : Type ℓ} → OutStream → (Channel → Result A × Channel) → World → Result A × World
on_wal w m s =
    let (r, c) = m (record { output = w; disk = s.disk }) in
    (r, record { store = record s.store { wal = some c.output }; disk = c.disk })

unfoldable pub on_disk {ℓ} : {A : Type ℓ} → (Disk → Result A × Disk) → World → Result A × World
on_disk m s = let (r, d) = m s.disk in (r, record s { disk = d })

abbrev pub update_store : (KvStore → KvStore) → Exec World (Unit {0})
update_store f s = (ok tt, record s { store = f s.store })

-- `if (wal_ != nullptr) wal_->…`
unfoldable pub when_wal : Exec Channel (Unit {0}) → Exec World (Unit {0})
when_wal m s = elim s.store.wal [ none ↦ (ok tt, s) | some w ↦ on_wal w m s ]

-- `(wal_ != nullptr) ? wal_->CurrentOffset() : 0`
unfoldable pub wal_offset : Exec World ℕ
wal_offset s = elim s.store.wal [ none ↦ (ok 0, s) | some w ↦ on_wal w Wal.current_offset s ]

-- The part that `MaybeSnapshot` and `SaveSnapshot` share.
write_snapshot : Bytes → ℕ → Exec World (Unit {0})
write_snapshot path offset = do
  entries ← gets (λ s. s.store.entries)
  on_disk (Snapshot.save path entries offset)
  update_store (λ k. record k { writes_since_snapshot = 0 })

pub checkpoint : Bytes → Exec World (Unit {0})
unfolding write_snapshot
checkpoint path = do offset ← wal_offset; write_snapshot path offset

unfoldable pub maybe_snapshot : Exec World (Unit {0})
maybe_snapshot s = elim s.store.snapshot [
  | none ↦ (ok tt, s)
  | some path ↦
      if leb snapshot_interval s.store.writes_since_snapshot then checkpoint path s else (ok tt, s)
]

abbrev count_write : KvStore → KvStore
count_write k = record k { writes_since_snapshot = (k.writes_since_snapshot + 1) % 2 ^ 64 }

pub set : Bytes → Bytes → Exec World (Unit {0})
set key value = do
  when_wal (Wal.append_set key value)
  update_store (λ k. record k { entries = insert key value k.entries })
  update_store count_write
  maybe_snapshot

unfoldable pub get : Bytes → World → Option Bytes
get key s = lookup key s.store.entries

abbrev pub is_there : Option Bytes → Bool
is_there none = false
is_there (some _) = true

-- `find(key) != end()`
pub contains : Bytes → World → Bool
contains key s = is_there (lookup key s.store.entries)

-- The reply tells whether an entry was removed.
pub delete : Bytes → Exec World Bool
unfolding contains
delete key = do
  when_wal (Wal.append_delete key)
  erased ← gets (contains key)
  update_store (λ k. record k { entries = erase key k.entries })
  update_store count_write
  maybe_snapshot
  pure erased

unfoldable pub size : World → ℕ
size s = length s.store.entries

pub clear : World → World
clear s = record s { store = record s.store { entries = []; writes_since_snapshot = 0 } }

unfoldable pub when_snapshot : (Bytes → Exec Disk (Unit {0})) → Exec World (Unit {0})
when_snapshot m s = elim s.store.snapshot [ none ↦ (ok tt, s) | some path ↦ on_disk (m path) s ]

pub clear_persistence : Exec World (Unit {0})
unfolding when_snapshot
clear_persistence = do
  when_wal Wal.clear
  when_snapshot Snapshot.clear
  update_store (λ k. record k { writes_since_snapshot = 0 })

pub save_snapshot : Exec World Bool
save_snapshot s = elim s.store.snapshot [
  | none ↦ (ok false, s)
  | some path ↦ (checkpoint path >>= λ _. pure true) s
]

-- The map is replaced by what is read; nothing goes through the log.
loaded_into : {A : Type 0} → Result (A × Map) → World → Result A × World
loaded_into (err message) s = (err message, s)
loaded_into (ok (r, entries)) s = (ok r, record s { store = record s.store { entries = entries } })

pub load_snapshot : Bytes → Exec World LoadResult
unfolding loaded_into
load_snapshot path s = loaded_into (Snapshot.load path s.disk s.store.entries) s

pub replay_from_wal : Bytes → ℕ → Exec World ℕ
unfolding loaded_into
replay_from_wal path offset s = loaded_into (Wal.replay_from path s.disk offset s.store.entries) s

-- What `main` does before it serves requests: the snapshot, then the log behind it.
unfoldable pub recover : Bytes → Bytes → Exec World (LoadResult × ℕ)
recover wal_path snapshot_path = do
  result ← load_snapshot snapshot_path
  recovered ← replay_from_wal wal_path result.wal_offset
  pure (result, recovered)

abbrev pub fresh_store : OutStream → Bytes → KvStore
fresh_store log snapshot_path = record {
  entries = [];
  wal = some log;
  snapshot = some snapshot_path;
  writes_since_snapshot = 0;
}

unfoldable pub started : Bytes → Bytes → Result OutStream × Disk → Result (LoadResult × ℕ) × World
started wal_path snapshot_path (ok log, d) =
    recover wal_path snapshot_path (record { store = fresh_store log snapshot_path; disk = d })
started wal_path snapshot_path (err message, d) = (
  err message,
  record {
    store = record { entries = []; wal = none; snapshot = none; writes_since_snapshot = 0 };
    disk = d;
  },
)

-- The start of `main`: the log is opened, a store is put over it, and recovery fills it. An exception
-- ends the process.
unfoldable pub start : Bytes → Bytes → Disk → Result (LoadResult × ℕ) × World
unfolding started
start wal_path snapshot_path d = started wal_path snapshot_path (Wal.open_log wal_path d)
