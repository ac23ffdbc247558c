-- ===== src/KvStore/Checkpoint.antt =====
-- Saving a snapshot keeps the disk in step with the map, whether or not the save succeeds.
use agent_kv.Prelude.{
  ℕ, ◌≤◌, ◌<◌, ◌^◌, Bytes, [], length, Option, none, some, ◌≡◌, ◌≢◌, inr, refl, sym, ap, subst, ◌∙◌,
  append-nil, leb, if◌then◌else◌,
}
use agent_kv.Exec.{Result, ok, err, continue}
use agent_kv.Map.{Map, IsMap}
use agent_kv.Disk.{Disk, max_offset}
use agent_kv.Snapshot
use agent_kv.Snapshot.{temp_path}
use agent_kv.Snapshot.Image.{image, IsStorable, IsStorable-IsEncodable}
use agent_kv.Snapshot.Save.{Saved, save-Saved, Counted, save-Counted}
use agent_kv.KvStore.{
  World, on_disk, wal_offset, write_snapshot, update_store, checkpoint, maybe_snapshot,
  snapshot_interval,
}
use agent_kv.KvStore.Durable.{IsCheckpoint, IsTail, Backed, IsDurable, Backed-same}
use agent_kv.KvStore.Locate.{Clean, Located, wal_offset-Located}

pub maybe_snapshot-some :
    (s : World) {path : Bytes}
    → s.store.snapshot ≡ some path
    → maybe_snapshot s ≡ (
        if leb snapshot_interval s.store.writes_since_snapshot
        then checkpoint path s
        else (ok tt, s))
unfolding maybe_snapshot
maybe_snapshot-some s e =
    ap
      (λ (o : Option Bytes). elim o [
        | none ↦ (ok tt, s)
        | some p ↦
            if leb snapshot_interval s.store.writes_since_snapshot
            then checkpoint p s
            else (ok tt, s)
      ])
      e

module _ {wal_path snapshot_path : Bytes} (apart : wal_path ≢ snapshot_path)
    (apart' : wal_path ≢ temp_path snapshot_path) where
  -- A new snapshot of a storable map covers the whole log, whatever the log holds.
  pub covered :
      {n : ℕ} (s : World) (d : Disk)
      → IsStorable s.store.entries
      → IsMap s.store.entries
      → Clean wal_path snapshot_path n s
      → Saved snapshot_path s.store.entries n s.disk (ok tt, d)
      → length s.store.entries < 2 ^ 32
      → IsDurable wal_path snapshot_path (record s { disk = d })
  covered s d storable map c (snap, rest) few =
      let same = rest wal_path (λ e. apart (sym e)) (λ e. apart' (sym e)) in
      record {
        log = c.log;
        base = s.store.entries;
        before = c.file;
        ops = [];
        tail = [];
        wal = c.wal;
        snapshot = c.snapshot;
        target = c.target;
        file = same ∙ c.holds ∙ ap some (sym (append-nil c.file));
        bound = subst (λ f. length f ≤ max_offset) (sym (append-nil c.file)) c.bound;
        checkpoint =
            inr (snap ∙ ap (λ k. some (image k s.store.entries)) c.size, storable, map, few);
        writable = tt;
        ending = subst (λ g. IsTail g []) (sym c.good) refl;
        rebuilt = refl;
      }

  -- A save: it returns behind a new snapshot of the map, or throws and the disk still rebuilds what
  -- it did.
  abbrev pub Saves : {A : Type 0} → Map → World → Result A × World → Type 0
  Saves stored s (ok _, s') =
      (s'.store.entries ≡ s.store.entries) × IsDurable wal_path snapshot_path s'
  Saves stored s (err _, s') =
      (s'.store.entries ≡ s.store.entries) × Backed wal_path snapshot_path stored s'

  saved :
      {n : ℕ} {stored : Map} (s : World) (r : Result (Unit {0}) × Disk)
      → Backed wal_path snapshot_path stored s
      → IsStorable s.store.entries
      → IsMap s.store.entries
      → Clean wal_path snapshot_path n s
      → Saved snapshot_path s.store.entries n s.disk r
      → Counted s.store.entries r
      → Saves stored s (
          continue r.0
            (λ _. update_store (λ k. record k { writes_since_snapshot = 0 }))
            (record s { disk = r.1 }))
  saved s (ok u, d) _ storable map c written few =
      (refl, Backed-same (covered s d storable map c written few) _ refl refl refl)
  saved s (err e, d) b _ _ c (snap, rest) _ =
      let same = rest wal_path (λ e. apart (sym e)) (λ e. apart' (sym e)) in
      (
        refl,
        record {
          log = b.log;
          base = b.base;
          before = b.before;
          ops = b.ops;
          tail = b.tail;
          wal = b.wal;
          snapshot = b.snapshot;
          target = b.target;
          file = same ∙ b.file;
          bound = b.bound;
          checkpoint = subst (λ f. IsCheckpoint f (length b.before) b.base) (sym snap) b.checkpoint;
          writable = b.writable;
          ending = b.ending;
          rebuilt = b.rebuilt;
        },
      )

  located :
      (stored : Map) (s : World) (r : Result ℕ × World)
      → IsStorable s.store.entries
      → IsMap s.store.entries
      → Located wal_path snapshot_path stored s r
      → Saves stored s (continue r.0 (write_snapshot snapshot_path) r.1)
  unfolding write_snapshot on_disk
  located stored s (ok n, s') storable map (same, b, c) =
      let storable' = subst IsStorable (sym same) storable in
      let r = Snapshot.save snapshot_path s'.store.entries n s'.disk in
      kept_since s s' _ same (
        saved s' r b storable' (subst IsMap (sym same) map) c
          (save-Saved snapshot_path s'.store.entries n s'.disk
            (IsStorable-IsEncodable s'.store.entries storable'))
          (save-Counted snapshot_path s'.store.entries n s'.disk))
    where
      kept_since :
          (s s' : World) (r : Result (Unit {0}) × World)
          → s'.store.entries ≡ s.store.entries
          → Saves stored s' r
          → Saves stored s r
      kept_since s s' (ok _, _) same (kept, b) = (kept ∙ same, b)
      kept_since s s' (err _, _) same (kept, b) = (kept ∙ same, b)
  located stored s (err e, s') _ _ (same, b) = (same, b)

  -- Taking a checkpoint, with any failures.
  pub checkpoint-Saves :
      {stored : Map} (s : World)
      → Backed wal_path snapshot_path stored s
      → IsStorable s.store.entries
      → IsMap s.store.entries
      → Saves stored s (checkpoint snapshot_path s)
  unfolding checkpoint
  checkpoint-Saves {stored} s b storable map =
      located stored s (wal_offset s) storable map (wal_offset-Located apart b)
