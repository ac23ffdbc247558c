-- ===== src/KvStore/Behind/Start.antt =====
-- A start over a log of any bytes behind a snapshot.
use agent_kv.Prelude.{
  ℕ, ◌≤◌, Bytes, ◌++◌, length, length-append, List, Option, ◌≡◌, ◌≢◌, inl, inr, refl, sym, ap,
  subst, ◌∙◌, arith,
}
use agent_kv.Exec.{Result, ok, err}
use agent_kv.Map.{Map, IsMap}
use agent_kv.Disk.{Disk, Fate, OutStream, contents, or_empty, max_offset}
use agent_kv.Snapshot.{LoadResult}
use agent_kv.Snapshot.Image.{IsStorable}
use agent_kv.Wal
use agent_kv.Wal.{open_log}
use agent_kv.Wal.Open.{Opened, open_log-Opened}
use agent_kv.Wal.Recovery.{frames}
use agent_kv.Wal.Safe.{IsKept, replay_from-IsKept}
use agent_kv.KvStore.{World, KvStore, fresh_store, start, started}
use agent_kv.KvStore.Durable.{IsCheckpoint, Backed}
use agent_kv.KvStore.Recovery.{load-IsCheckpoint, recover-ok}
use agent_kv.KvStore.Behind.{Loose}

checkpoint-IsKept :
    {file : Option Bytes} {offset : ℕ} {base : Map} → IsCheckpoint file offset base → IsKept base
checkpoint-IsKept (inl (_, empty, _)) =
    (subst IsStorable (sym empty) tt, subst IsMap (sym empty) tt)
checkpoint-IsKept (inr (_, storable, map, _)) = (storable, map)

module _ {wal_path snapshot_path : Bytes} (apart : wal_path ≢ snapshot_path) where
  -- What is behind a durable store.
  pub Backed-Loose :
      {entries : Map} {s : World}
      → Backed wal_path snapshot_path entries s
      → Loose wal_path snapshot_path s
  Backed-Loose b = record {
    log = b.log;
    file = b.before ++ (frames b.ops ++ b.tail);
    offset = length b.before;
    base = b.base;
    wal = b.wal;
    snapshot = b.snapshot;
    target = b.target;
    holds = b.file;
    bound = b.bound;
    small = omega (arith, b.bound, length-append b.before (frames b.ops ++ b.tail));
    checkpoint = b.checkpoint;
  }

  -- The outcome of a start: a store over whatever is there, its map one that replay keeps; or
  -- the log could not be opened, and no file has changed.
  abbrev pub StartedLoose : World → Result (LoadResult × ℕ) × World → Type 0
  StartedLoose s (ok _, s') = Loose wal_path snapshot_path s' × IsKept s'.store.entries
  StartedLoose s (err _, s') = s'.disk.files ≡ s.disk.files

  module _ (s : World) (b : Loose wal_path snapshot_path s) where
    opened :
        (fates : List Fate) (r : Result OutStream × Disk)
        → Opened wal_path (record s.disk { fates = fates }) r
        → StartedLoose s (started wal_path snapshot_path r)
    unfolding started
    opened fates (err message, d) (_, files) = files
    opened fates (ok log, d) (up, h) =
        let k : KvStore = fresh_store log snapshot_path in
        let checkpoint =
          subst (λ f. IsCheckpoint f b.offset b.base) (sym (h.rest snapshot_path apart))
            b.checkpoint in
        let (r, loaded, offset) =
          load-IsCheckpoint snapshot_path d b.offset b.base checkpoint b.small in
        let (n, m, replayed, good) =
          replay_from-IsKept wal_path d b.offset b.base b.small (checkpoint-IsKept checkpoint) in
        let eq =
          recover-ok wal_path snapshot_path (record { store = k; disk = d }) loaded
            (ap (λ o. Wal.replay_from wal_path d o b.base) offset ∙ replayed) in
        subst (StartedLoose s) (sym eq) (
          record {
            log = log;
            file = contents s.disk wal_path;
            offset = b.offset;
            base = b.base;
            wal = refl;
            snapshot = refl;
            target = h.target;
            holds = h.file;
            bound = h.bound;
            small = b.small;
            checkpoint = checkpoint;
          },
          good,
        )

    pub start-StartedLoose :
        (fates : List Fate)
        → StartedLoose s (start wal_path snapshot_path (record s.disk { fates = fates }))
    unfolding start
    start-StartedLoose fates = opened fates (open_log wal_path (record s.disk { fates = fates })) (
        open_log-Opened wal_path (record s.disk { fates = fates })
          (subst (λ f. length f ≤ max_offset) (sym (ap or_empty b.holds)) b.bound))
