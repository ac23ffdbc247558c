-- ===== src/Bench/Kept.antt =====
-- Workloads that keep the log good and the disk in step with the store.
use agent_kv.Prelude.{
  ◌≤◌, Bytes, [], ◌∷◌, List, length, none, Bool, true, ◌≡◌, inl, refl, ap, ◌∙◌, arith,
}
use agent_kv.Exec.{Result, ok, err}
use agent_kv.Map.{Map, insert}
use agent_kv.Disk.{Disk, OutStream, Channel, contents, or_empty, max_offset}
use agent_kv.Disk.Writes.{Holds}
use agent_kv.Wal
use agent_kv.Wal.Frame.{put}
use agent_kv.Wal.Open.{Opened, open_log-Opened}
use agent_kv.KvStore.{World, fresh_store, set, save_snapshot}
use agent_kv.KvStore.Durable.{IsDurable}
use agent_kv.KvStore.Requests.{Done, Ends, set-Done, save_snapshot-Ends}
use agent_kv.KvStore.Sessions
use agent_kv.KvStore.Sessions.{IsSound}
use agent_kv.KvStore.Good.{LogIsGood, Leaves, set-Leaves, save_snapshot-Leaves}
use agent_kv.Bench.Workloads
use agent_kv.Bench.Workloads.{Bench, on_world, open_store, wal_path, snapshot_path, preload_store}
use agent_kv.Bench.Workloads.Paths.{wal_path-ne, wal_path-ne_temp}
use agent_kv.Bench.Workloads.Filled.{filled}
use agent_kv.Bench.Machine.{Machine}
use agent_kv.Bench.Causes
use agent_kv.Bench.Causes.{Cause, no_log, no_set, no_save, Ends-continue}

-- The store of a directory is durable, its log is good, and it holds these entries.
pub record Kept (directory : Bytes) (entries : Map) (s : Bench) : Type 0 where
  pub durable : IsDurable (wal_path directory) (snapshot_path directory) s.world
  pub good : LogIsGood s.world
  pub map : s.world.store.entries ≡ entries

module _ (machine : Machine) (directory : Bytes) where
  log_outcome :
      (P : Bench → Type 0) (s : Bench) (r : Result OutStream × Disk)
      → Wal.open_log (wal_path directory) s.world.disk ≡ r
      → Opened (wal_path directory) s.world.disk r
      → ((c : Channel)
          → c.output.good ≡ true
          → Holds
              (wal_path directory)
              (contents s.world.disk (wal_path directory))
              s.world.disk.files
              c
          → P (record s {
            world = record {
              store = fresh_store c.output (snapshot_path directory);
              disk = c.disk;
            };
          }))
      → Causes.Ends machine (λ _ t. P t) (Workloads.opened_store directory s r)
  unfolding Workloads.opened_store
  log_outcome P s (ok log, d) e (up, h) goes = goes (record { output = log; disk = d }) up h
  log_outcome P s (err message, d) e _ goes =
      no_log (wal_path directory) s.world.disk (ap (λ r. r.0) e)

  -- Opening the store, for what holds of every good log behind the bytes of the file.
  pub open_store_over :
      (P : Bench → Type 0) (s : Bench)
      → length (contents s.world.disk (wal_path directory)) ≤ max_offset
      → ((c : Channel)
          → c.output.good ≡ true
          → Holds
              (wal_path directory)
              (contents s.world.disk (wal_path directory))
              s.world.disk.files
              c
          → P (record s {
            world = record {
              store = fresh_store c.output (snapshot_path directory);
              disk = c.disk;
            };
          }))
      → Causes.Ends machine (λ _ t. P t) (open_store directory s)
  unfolding open_store
  open_store_over P s bound goes =
      log_outcome P s (Wal.open_log (wal_path directory) s.world.disk) refl
        (open_log-Opened (wal_path directory) s.world.disk bound) goes

  fresh-IsSound :
      (d : Disk)
      → d.files (wal_path directory) ≡ none
      → d.files (snapshot_path directory) ≡ none
      → IsSound (wal_path directory) (snapshot_path directory) [] d
  fresh-IsSound d no_wal no_snapshot = record {
    base = [];
    before = [];
    ops = [];
    file = ap or_empty no_wal;
    bound = omega arith;
    checkpoint = inl (no_snapshot, refl, refl);
    writable = tt;
    rebuilt = refl;
  }

  -- In a directory without a log and a snapshot the store opens empty.
  pub open_store-Kept :
      (s : Bench)
      → s.world.disk.files (wal_path directory) ≡ none
      → s.world.disk.files (snapshot_path directory) ≡ none
      → Causes.Ends machine (λ _ t. Kept directory [] t) (open_store directory s)
  open_store-Kept s no_wal no_snapshot =
      let empty : contents s.world.disk (wal_path directory) ≡ [] = ap or_empty no_wal in
      open_store_over (Kept directory []) s (omega (arith, ap length empty)) (λ c up h. record {
        durable =
            Sessions.opened_store (wal_path-ne directory)
              (fresh-IsSound s.world.disk no_wal no_snapshot) c up h
              (fresh_store c.output (snapshot_path directory)) refl refl refl;
        good = (c.output, refl, up);
        map = refl;
      })

  set_outcome :
      (key value : Bytes) (m : Map) (s : Bench) (r : Result (Unit {0}) × World)
      → s.world.store.entries ≡ m
      → set key value s.world ≡ r
      → Done (wal_path directory) (snapshot_path directory) (put key value) s.world (λ _. Unit) r
      → Leaves r
      → Causes.Ends machine
          (λ _ t. Kept directory (insert key value m) t)
          (r.0, record s { world = r.1 })
  set_outcome key value m s (ok u, w) same e (grown, _, durable) good = record {
    durable = durable;
    good = good;
    map = grown ∙ ap (insert key value) same;
  }
  set_outcome key value m s (err message, w) same e _ _ = no_set key value s.world (ap (λ r. r.0) e)

  set-Kept :
      (key value : Bytes) (m : Map) (s : Bench)
      → Kept directory m s
      → Causes.Ends machine
          (λ _ t. Kept directory (insert key value m) t)
          (on_world (set key value) s)
  unfolding on_world
  set-Kept key value m s k =
      set_outcome key value m s (set key value s.world) k.map refl
        (set-Done (wal_path-ne directory) (wal_path-ne_temp directory) key value s.world k.durable)
        (set-Leaves (wal_path-ne directory) key value s.world k.durable k.good)

  pub preload_store-Kept :
      (keys : List Bytes) (value : Bytes) (m : Map) (s : Bench)
      → Kept directory m s
      → Causes.Ends machine
          (λ _ t. Kept directory (filled keys value m) t)
          (preload_store keys value s)
  unfolding preload_store filled
  preload_store-Kept [] value m s k = k
  preload_store-Kept (key ∷ keys) value m s k =
      Ends-continue machine (λ _ t. Kept directory (insert key value m) t)
        (λ _ t. Kept directory (filled (key ∷ keys) value m) t) (on_world (set key value) s)
        (λ _. preload_store keys value) (set-Kept key value m s k)
        (λ _ t k'. preload_store-Kept keys value (insert key value m) t k')

  save_outcome :
      (m : Map) (s : Bench) (r : Result Bool × World)
      → s.world.store.entries ≡ m
      → save_snapshot s.world ≡ r
      → Ends (wal_path directory) (snapshot_path directory) (λ saved. saved ≡ true) s.world r
      → Leaves r
      → Causes.Ends machine
          (λ saved t. (saved ≡ true) × Kept directory m t)
          (r.0, record s { world = r.1 })
  save_outcome m s (ok saved, w) same e (kept, yes_saved, durable) good =
      (yes_saved, record { durable = durable; good = good; map = kept ∙ same })
  save_outcome m s (err message, w) same e _ _ = no_save s.world (ap (λ r. r.0) e)

  pub save_snapshot-Kept :
      (m : Map) (s : Bench)
      → Kept directory m s
      → Causes.Ends machine
          (λ saved t. (saved ≡ true) × Kept directory m t)
          (on_world save_snapshot s)
  unfolding on_world
  save_snapshot-Kept m s k =
      save_outcome m s (save_snapshot s.world) k.map refl
        (save_snapshot-Ends (wal_path-ne directory) (wal_path-ne_temp directory) s.world k.durable)
        (save_snapshot-Leaves (wal_path-ne directory) (wal_path-ne_temp directory) s.world
          k.durable)
