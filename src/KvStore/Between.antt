-- ===== src/KvStore/Between.antt =====
-- A store that serves and a disk between two processes, as what outlives the process; deaths and
-- starts.
use agent_kv.Prelude.{
  ℕ, Bool, true, false, Bytes, List, Option, ◌≡◌, ◌≢◌, ◌⊎◌, inl, inr, refl, sym, ap, subst, ◌∙◌,
}
use agent_kv.Exec.{ok, err}
use agent_kv.Map.{Map, IsMap}
use agent_kv.Disk.{Disk, Fate}
use agent_kv.Snapshot.{LoadResult, temp_path}
use agent_kv.Snapshot.Image.{IsStorable}
use agent_kv.Wal.Frame.{Op, apply_op}
use agent_kv.Wal.Safe.{IsKept}
use agent_kv.KvStore.{World, start}
use agent_kv.KvStore.Durable.{Backed, IsDurable, Backed-same}
use agent_kv.KvStore.Locate.{entries-IsStorable, entries-IsMap}
use agent_kv.KvStore.Good.{Backed-IsSound}
use agent_kv.KvStore.Recovery.{log_is_good, stream_is_good}
use agent_kv.KvStore.Behind.{Stored, kept, torn, unknown, Loose, Behind}
use agent_kv.KvStore.Behind.Start.{Backed-Loose, StartedLoose, start-StartedLoose}
use agent_kv.KvStore.Repaired.{Restarted, start-Restarted}
use agent_kv.KvStore.Sessions.{IsSound, Started, start-Started}
use agent_kv.KvStore.Starting.{IsSound-same, Untouched, start-Untouched}
use agent_kv.KvStore.Life.{died, Phase, up, down, Pair, Moves, Finds}

module _ (wal_path snapshot_path : Bytes) where
  -- A disk between two processes.
  abbrev pub Rests : Stored → Disk → Type 0
  Rests (kept n) d = IsSound wal_path snapshot_path n d
  Rests (torn n) d = (s : World) × Backed wal_path snapshot_path n s × (d.files ≡ s.disk.files)
  Rests unknown d = (s : World) × Loose wal_path snapshot_path s × (d.files ≡ s.disk.files)

  -- The phase holds the pair.
  abbrev pub Keeps : Phase → Pair → Type 0
  Keeps (up s) p =
      Behind wal_path snapshot_path p.stored s
      × IsStorable s.store.entries
      × IsMap s.store.entries
      × (s.store.entries ≡ p.memory)
  Keeps (down d) p = Rests p.stored d

module _ {wal_path snapshot_path : Bytes} (apart : wal_path ≢ snapshot_path)
    (apart' : wal_path ≢ temp_path snapshot_path) where
  -- The pair behind a world.
  pub held :
      (stored : Stored) (s : World)
      → Behind wal_path snapshot_path stored s
      → IsStorable s.store.entries
      → IsMap s.store.entries
      → Keeps wal_path snapshot_path (up s) (record { memory = s.store.entries; stored = stored })
  held stored s b storable map = (b, storable, map, refl)

  pub durable :
      (s : World)
      → IsDurable wal_path snapshot_path s
      → Keeps wal_path snapshot_path
          (up s)
          (record { memory = s.store.entries; stored = kept s.store.entries })
  durable s b = (b, entries-IsStorable b, entries-IsMap b, refl)

  -- A death, by whether the log's stream is good.
  pub dead :
      (stored : Stored) (m : Map) (s : World) (fates : List Fate) (good : Bool)
      → Behind wal_path snapshot_path stored s
      → log_is_good s ≡ good
      → (q : Pair) × Moves (died good) (record { memory = m; stored = stored }) q
        × Keeps wal_path snapshot_path (down (record s.disk { fates = fates })) q
  dead (kept n) m s fates true b good = (
    record { memory = m; stored = kept n },
    refl,
    IsSound-same (record s.disk { fates = fates }) refl
        (Backed-IsSound b (b.log, b.wal, ap stream_is_good (sym b.wal) ∙ good)),
  )
  dead (kept n) m s fates false b good =
      (record { memory = m; stored = torn n }, refl, (s, b, refl))
  dead (torn n) m s fates good b _ = absurd b
  dead unknown m s fates true b _ = (record { memory = m; stored = unknown }, refl, (s, b, refl))
  dead unknown m s fates false b _ = (record { memory = m; stored = unknown }, refl, (s, b, refl))

  -- A start over a log of any bytes.
  outcome :
      (s : World) (d : Disk)
      → Loose wal_path snapshot_path s
      → d.files ≡ s.disk.files
      → StartedLoose apart s (start wal_path snapshot_path d)
  outcome s d b same =
      subst
        (λ (f : Bytes → Option Bytes).
          StartedLoose apart s
            (start wal_path snapshot_path (record { files = f; fates = d.fates })))
        (sym same) (start-StartedLoose apart s b d.fates)

  -- The map that a start finds behind a torn log.
  found :
      (n : Map) (s : World) (d : Disk) (s' : World) (r : LoadResult × ℕ)
      → Backed wal_path snapshot_path n s
      → d.files ≡ s.disk.files
      → start wal_path snapshot_path d ≡ (ok r, s')
      → (s'.store.entries ≡ n) ⊎ ((op : Op) × (s'.store.entries ≡ apply_op op n))
  found n s d s' r b same e =
      let old : World = record s { store = record s.store { entries = n } } in
      let restarted =
        subst
          (λ (f : Bytes → Option Bytes).
            Restarted apart apart' old
              (start wal_path snapshot_path (record { files = f; fates = d.fates })))
          (sym same)
          (start-Restarted apart apart' old (Backed-same b old refl refl refl) d.fates) in
      elim (subst (Restarted apart apart' old) e restarted).0 [
        | inl h ↦ inl h
        | inr (op, _, _, _, h) ↦ inr (op, h)
      ]

  loosely :
      (s : World) (d : Disk) (s' : World) (r : LoadResult × ℕ)
      → Loose wal_path snapshot_path s
      → d.files ≡ s.disk.files
      → start wal_path snapshot_path d ≡ (ok r, s')
      → Loose wal_path snapshot_path s' × IsKept s'.store.entries
  loosely s d s' r b same e = subst (StartedLoose apart s) e (outcome s d b same)

  pub begun :
      (stored : Stored) (d : Disk) (s : World) (r : LoadResult × ℕ)
      → start wal_path snapshot_path d ≡ (ok r, s)
      → Rests wal_path snapshot_path stored d
      → (q : Pair) × Finds stored q × Keeps wal_path snapshot_path (up s) q
  begun (kept n) d s r e i =
      let (same, b) = subst (Started wal_path snapshot_path n) e (start-Started apart i) in
      (
        record { memory = s.store.entries; stored = kept s.store.entries },
        (same, ap kept same),
        durable s b,
      )
  begun (torn n) d s r e (old, b, same) =
      let (b', (storable, map)) = loosely old d s r (Backed-Loose apart b) same e in
      (
        record { memory = s.store.entries; stored = unknown },
        (found n old d s r b same e, refl),
        held unknown s b' storable map,
      )
  begun unknown d s r e (old, b, same) =
      let (b', (storable, map)) = loosely old d s r b same e in
      (record { memory = s.store.entries; stored = unknown }, refl, held unknown s b' storable map)

  pub unstarted :
      (stored : Stored) (d : Disk) (s : World) (fates : List Fate) (message : Bytes)
      → start wal_path snapshot_path d ≡ (err message, s)
      → Rests wal_path snapshot_path stored d
      → Rests wal_path snapshot_path stored (record s.disk { fates = fates })
  unstarted (kept n) d s fates message e i =
      IsSound-same (record s.disk { fates = fates })
        (subst (Untouched apart d) e (start-Untouched apart d i)) i
  unstarted (torn n) d s fates message e (old, b, same) =
      (old, b, subst (StartedLoose apart old) e (outcome old d (Backed-Loose apart b) same))
  unstarted unknown d s fates message e (old, b, same) =
      (old, b, subst (StartedLoose apart old) e (outcome old d b same))
