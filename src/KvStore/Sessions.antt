-- ===== src/KvStore/Sessions.antt =====
-- A whole session: `main` starts over a sound disk, serves any requests under any failures, dies, and
-- is started again.
use agent_kv.Prelude.{
  ℕ, ◌≤◌, Bytes, codes, List, [], ◌∷◌, ◌++◌, length, All, none, some, true, ◌≡◌, ◌≢◌, inl, inr,
  refl, sym, ap, subst, ◌∙◌, append-nil,
}
use mathlib.Core.Bool.{false≢true}
use agent_kv.Exec.{Result, ok, err}
use agent_kv.Map.{Map}
use agent_kv.Disk.{Disk, OutStream, Channel, contents, max_offset}
use agent_kv.Disk.Writes.{Holds}
use agent_kv.Snapshot.{LoadResult, temp_path}
use agent_kv.Wal.{open_log}
use agent_kv.Wal.Open.{Opened, open_log-Opened}
use agent_kv.Wal.Frame.{Op, put, remove, IsWritable}
use agent_kv.Wal.Recovery.{frames, apply_ops}
use agent_kv.KvStore.{
  KvStore, World, set, delete, contains, save_snapshot, fresh_store, recover, start, started,
}
use agent_kv.KvStore.Durable.{IsCheckpoint, IsTail, IsDurable}
use agent_kv.KvStore.Requests.{Done, Ends, set-Done, delete-Done, save_snapshot-Ends}
use agent_kv.KvStore.Recovery.{IsRecovered, recover-IsDurable}

-- A disk that a process left in order: a checkpoint, and a log of whole records behind it.
pub record IsSound (wal_path snapshot_path : Bytes) (entries : Map) (d : Disk) : Type 0 where
  pub base : Map
  pub before : Bytes
  pub ops : List Op
  pub file : contents d wal_path ≡ before ++ frames ops
  pub bound : length (before ++ frames ops) ≤ max_offset
  pub checkpoint : IsCheckpoint (d.files snapshot_path) (length before) base
  pub writable : All IsWritable ops
  pub rebuilt : entries ≡ apply_ops ops base

-- The outcome of a start: a durable store of those entries; or the log could not be opened.
abbrev pub Started : Bytes → Bytes → Map → Result (LoadResult × ℕ) × World → Type 0
Started wal_path snapshot_path entries (ok _, s) =
    (s.store.entries ≡ entries) × IsDurable wal_path snapshot_path s
Started wal_path snapshot_path entries (err e, s) =
    (s.store.wal ≡ none) × (e ≡ codes "failed to open WAL file: " ++ wal_path)

module _ {wal_path snapshot_path : Bytes} (apart : wal_path ≢ snapshot_path) {entries : Map}
    {d : Disk} (i : IsSound wal_path snapshot_path entries d) where
  -- A store over the opened log, holding the entries.
  pub opened_store :
      (c : Channel)
      → c.output.good ≡ true
      → Holds wal_path (contents d wal_path) d.files c
      → (k : KvStore) → k.entries ≡ entries
      → k.wal ≡ some c.output
      → k.snapshot ≡ some snapshot_path
      → IsDurable wal_path snapshot_path (record { store = k; disk = c.disk })
  opened_store c up h k e w p =
      let seam : contents d wal_path ≡ i.before ++ (frames i.ops ++ []) =
        i.file ∙ ap (λ b. i.before ++ b) (sym (append-nil (frames i.ops))) in
      record {
        log = c.output;
        base = i.base;
        before = i.before;
        ops = i.ops;
        tail = [];
        wal = w;
        snapshot = p;
        target = h.target;
        file = h.file ∙ ap some seam;
        bound = subst (λ b. length b ≤ max_offset) seam h.bound;
        checkpoint =
            subst (λ f. IsCheckpoint f (length i.before) i.base) (sym (h.rest snapshot_path apart))
              i.checkpoint;
        writable = i.writable;
        ending = subst (λ g. IsTail g []) (sym up) refl;
        rebuilt = e ∙ i.rebuilt;
      }

  -- Recovery into the empty store over the opened log returns, and finds the entries.
  pub recover-opened :
      (c : Channel)
      → c.output.good ≡ true
      → Holds wal_path (contents d wal_path) d.files c
      → (r : LoadResult × ℕ) × (recover wal_path snapshot_path
            (record { store = fresh_store c.output snapshot_path; disk = c.disk })
          ≡ (
            ok r,
            record {
              store = record (fresh_store c.output snapshot_path) { entries = entries };
              disk = c.disk;
            },
          ))
  recover-opened c up h =
      let k = fresh_store c.output snapshot_path in
      let full : KvStore = record k { entries = entries } in
      let (r, m, eq, cases) =
        recover-IsDurable wal_path snapshot_path (record { store = full; disk = c.disk }) k
          (opened_store c up h full refl refl refl) refl in
      let e : m ≡ entries = elim cases [
        | inl e ↦ e
        | inr (op, down, _, _, x) ↦ absurd (false≢true (sym down ∙ up))
      ] in
      (r, eq ∙ ap (λ m. (ok r, record { store = record k { entries = m }; disk = c.disk })) e)

  started-Started :
      (r : Result OutStream × Disk)
      → Opened wal_path d r
      → Started wal_path snapshot_path entries (started wal_path snapshot_path r)
  unfolding started
  started-Started (err message, d') (e, _) = (refl, e)
  started-Started (ok log, d') (up, h) =
      let c : Channel = record { output = log; disk = d' } in
      let (r, eq) = recover-opened c up h in
      subst (Started wal_path snapshot_path entries) (sym eq) (
        refl,
        opened_store c up h (record (fresh_store log snapshot_path) { entries = entries }) refl refl
            refl,
      )

  -- Over a disk that a process left in order, with the log and the snapshot at different paths, the
  -- start of `main` ends with a durable store that holds the entries of the disk, or the log cannot
  -- be opened and the process ends with that error.
  pub start-Started : Started wal_path snapshot_path entries (start wal_path snapshot_path d)
  unfolding start
  start-Started =
      started-Started (open_log wal_path d)
        (open_log-Opened wal_path d (subst (λ b. length b ≤ max_offset) (sym i.file) i.bound))

-- What a client asks of a store that is shared with nobody else.
pub data Request : Type 0 where
  set_entry : Bytes → Bytes → Request
  delete_entry : Bytes → Request
  take_snapshot : Request

-- A request that throws is reported, and the next one is served.
unfoldable pub serve : Request → World → World
serve (set_entry key value) s = (set key value s).1
serve (delete_entry key) s = (delete key s).1
serve take_snapshot s = (save_snapshot s).1

unfoldable pub serve_all : List Request → World → World
serve_all [] s = s
serve_all (q ∷ qs) s = serve_all qs (serve q s)

module _ {wal_path snapshot_path : Bytes} (apart : wal_path ≢ snapshot_path)
    (apart' : wal_path ≢ temp_path snapshot_path) where
  done-IsDurable :
      {A : Type 0} (op : Op) (s : World) (Q : A → Type 0) (r : Result A × World)
      → Done wal_path snapshot_path op s Q r
      → IsDurable wal_path snapshot_path r.1
  done-IsDurable op s Q (ok a, s') (_, _, d) = d
  done-IsDurable op s Q (err e, s') (_, d) = d

  ends-IsDurable :
      {A : Type 0} (s : World) (Q : A → Type 0) (r : Result A × World)
      → Ends wal_path snapshot_path Q s r
      → IsDurable wal_path snapshot_path r.1
  ends-IsDurable s Q (ok a, s') (_, _, d) = d
  ends-IsDurable s Q (err e, s') (_, d) = d

  serve-IsDurable :
      (q : Request) (s : World)
      → IsDurable wal_path snapshot_path s
      → IsDurable wal_path snapshot_path (serve q s)
  unfolding serve
  serve-IsDurable (set_entry key value) s b =
      done-IsDurable (put key value) s (λ _. Unit) (set key value s)
        (set-Done apart apart' key value s b)
  serve-IsDurable (delete_entry key) s b =
      done-IsDurable (remove key) s (λ erased. erased ≡ contains key s) (delete key s)
        (delete-Done apart apart' key s b)
  serve-IsDurable take_snapshot s b =
      ends-IsDurable s (λ saved. saved ≡ true) (save_snapshot s)
        (save_snapshot-Ends apart apart' s b)

  pub serve_all-IsDurable :
      (qs : List Request) (s : World)
      → IsDurable wal_path snapshot_path s
      → IsDurable wal_path snapshot_path (serve_all qs s)
  unfolding serve_all
  serve_all-IsDurable [] s b = b
  serve_all-IsDurable (q ∷ qs) s b = serve_all-IsDurable qs (serve q s) (serve-IsDurable q s b)

  -- From a durable store, with the log at another path than the snapshot and its temporary file:
  -- however many requests to set, to delete and to save a snapshot are served and however the disk
  -- fails meanwhile, the recovery of `main` into a new empty store returns, and gives the map that was
  -- in memory; or, only if the log's stream had failed and the log's file ends with the whole record
  -- of an operation, that map with this operation done to it.
  pub recover-serve_all :
      (qs : List Request) (s : World) (k : KvStore)
      → IsDurable wal_path snapshot_path s
      → k.entries ≡ []
      → (r : LoadResult × ℕ) × (m : Map) × (recover wal_path snapshot_path
            (record { store = k; disk = (serve_all qs s).disk })
          ≡ (ok r, record { store = record k { entries = m }; disk = (serve_all qs s).disk }))
        × IsRecovered wal_path (serve_all qs s) m
  recover-serve_all qs s k b empty =
      recover-IsDurable wal_path snapshot_path (serve_all qs s) k (serve_all-IsDurable qs s b) empty
