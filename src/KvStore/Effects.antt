-- ===== src/KvStore/Effects.antt =====
-- What a deletion and a clearing do to the map, over any log and any disk.
use agent_kv.Prelude.{Bytes, Option, none, some, Bool, ◌≡◌, ◌⊎◌, inl, inr, refl, ap, ◌∙◌}
use agent_kv.Exec.{Result, ok, err, pure, ◌>>◌, continue}
use agent_kv.Map.{Map, lookup}
use agent_kv.Wal
use agent_kv.Wal.Append.{append}
use agent_kv.Wal.Frame.{Op, remove, apply_op}
use agent_kv.Snapshot
use agent_kv.KvStore.{
  KvStore, World, on_disk, when_wal, when_snapshot, count_write, maybe_snapshot, contains, is_there,
  delete, clear_persistence,
}
use agent_kv.KvStore.Parted.{change}
use agent_kv.KvStore.Entries.{Has, Has-continue, logging-Has, maybe_snapshot-Has}

-- A call that returns has this reply and has changed the map by the operation; one that throws may
-- have.
abbrev pub Replied : Bool → Op → Map → Result Bool × World → Type 0
Replied there op m (ok b, s) = (b ≡ there) × (s.store.entries ≡ apply_op op m)
Replied there op m (err _, s) = (s.store.entries ≡ apply_op op m) ⊎ (s.store.entries ≡ m)

replied :
    (op : Op) (m : Map) (b there : Bool) (r : Result (Unit {0}) × World)
    → b ≡ there
    → Has (apply_op op m) r
    → Replied there op m (continue r.0 (λ _. pure b) r.1)
replied op m b there (ok _, s) e h = (e, h)
replied op m b there (err _, s) e h = inl h

deleted :
    (key : Bytes) (m : Map) (r : Result (Unit {0}) × World)
    → Has m r
    → Replied (is_there (lookup key m)) (remove key) m (
        continue r.0
          (λ _ s'. change (remove key) (maybe_snapshot >> pure (contains key s')) s')
          r.1)
unfolding contains
deleted key m (err e, s) h = inr h
deleted key m (ok u, s) h =
    let op = remove key in
    let k : KvStore = count_write (record s.store { entries = apply_op op s.store.entries }) in
    replied op m _ _ (maybe_snapshot (record s { store = k })) (ap (λ n. is_there (lookup key n)) h)
      (maybe_snapshot-Has (record s { store = k }) ∙ ap (apply_op op) h)

-- A `Delete` over any store and disk: a reply tells whether the key was there.
pub delete-Replied :
    (key : Bytes) (s : World)
    → Replied (is_there (lookup key s.store.entries)) (remove key) s.store.entries (delete key s)
unfolding delete when_wal contains
delete-Replied key s =
    deleted key s.store.entries (when_wal (append (remove key)) s)
      (logging-Has s.store.wal (append (remove key)) s)

removing-Has :
    (o : Option Bytes) (s : World)
    → Has {A = Unit {0}} s.store.entries
        (elim o [ none ↦ (ok tt, s) | some path ↦ on_disk (Snapshot.clear path) s ])
unfolding on_disk
removing-Has none s = refl
removing-Has (some path) s = refl

-- A `ClearPersistence` keeps the map, whether it returns or throws.
pub clear_persistence-Has : (s : World) → Has s.store.entries (clear_persistence s)
unfolding clear_persistence when_wal when_snapshot
clear_persistence-Has s =
    Has-continue s.store.entries (when_wal Wal.clear s) _ (logging-Has s.store.wal Wal.clear s)
      (λ _ s' h.
        Has-continue s.store.entries (when_snapshot Snapshot.clear s') _
          (removing-Has s'.store.snapshot s' ∙ h) (λ _ t e. e))
