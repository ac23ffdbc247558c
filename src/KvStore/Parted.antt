-- ===== src/KvStore/Parted.antt =====
-- What the requests do to the map in memory and to the map that the disk rebuilds, where the two may
-- differ: `ClearPersistence` empties the one on the disk only.
use agent_kv.Prelude.{
  Bytes, Option, none, some, Bool, true, false, ◌≡◌, ◌≢◌, ◌⊎◌, inl, inr, refl, sym, ap, subst, ◌∙◌,
  Bool-cases, leb, if_true, if_false,
}
use agent_kv.Exec.{Result, ok, err, Exec, pure, ◌>>=◌, ◌>>◌, continue}
use agent_kv.Map.{lookup, IsMap}
use agent_kv.Snapshot.{temp_path}
use agent_kv.Snapshot.Image.{IsStorable}
use agent_kv.Wal.Append.{append}
use agent_kv.Wal.Frame.{Op, put, remove, apply_op}
use agent_kv.KvStore.{
  KvStore, World, when_wal, update_store, count_write, maybe_snapshot, checkpoint, set, contains,
  is_there, delete, save_snapshot, snapshot_interval,
}
use agent_kv.KvStore.Content.{apply_op-IsStorable, apply_op-IsMap}
use agent_kv.KvStore.Durable.{IsDurable}
use agent_kv.KvStore.Checkpoint.{maybe_snapshot-some}
use agent_kv.KvStore.Behind.{Stored, op_on, Behind, Behind-path, Behind-same}
use agent_kv.KvStore.Behind.Logging.{Logs, when_wal-Logs}
use agent_kv.KvStore.Behind.Saving.{SavesOver, checkpoint-SavesOver}

-- The part of a mutation behind the log.
abbrev pub change : {A : Type 0} → Op → Exec World A → Exec World A
change op next = do
  update_store (λ k. record k { entries = apply_op op k.entries })
  update_store count_write
  next

pub save_snapshot-some :
    {path : Bytes} (s : World)
    → s.store.snapshot ≡ some path
    → save_snapshot s ≡ (checkpoint path >>= λ _. pure true) s
unfolding save_snapshot
save_snapshot-some s e =
    ap
      (λ (o : Option Bytes). elim o [
        | none ↦ (ok false, s)
        | some path ↦ (checkpoint path >>= λ _. pure true) s
      ])
      e

module _ (wal_path snapshot_path : Bytes) where
  -- The disk rebuilds this map, or the one in memory.
  abbrev pub Rebuilds : Stored → World → Type 0
  Rebuilds stored s = Behind wal_path snapshot_path stored s ⊎ IsDurable wal_path snapshot_path s

  -- The outcome of a mutation: a call that returns has changed both maps by its operation, and its
  -- reply satisfies `Q`; one that throws has changed both so, or neither. A snapshot that is taken
  -- on the way makes the disk rebuild the map in memory.
  abbrev pub Parted : {A : Type 0} → Op → Stored → World → (A → Type 0) → Result A × World → Type 0
  Parted op stored s Q (ok a, s') =
      (s'.store.entries ≡ apply_op op s.store.entries)
      × IsStorable s'.store.entries
      × Q a
      × Rebuilds (op_on op stored) s'
  Parted op stored s Q (err _, s') =
      ((s'.store.entries ≡ apply_op op s.store.entries)
        × IsStorable s'.store.entries
        × Behind wal_path snapshot_path (op_on op stored) s')
      ⊎ ((s'.store.entries ≡ s.store.entries) × Behind wal_path snapshot_path stored s')

  -- A last step that keeps the map, may take a snapshot, and replies.
  abbrev MayReply : {A : Type 0} → (A → Type 0) → Stored → World → Result A × World → Type 0
  MayReply Q stored s (ok a, s') = (s'.store.entries ≡ s.store.entries) × Q a × Rebuilds stored s'
  MayReply Q stored s (err _, s') =
      (s'.store.entries ≡ s.store.entries) × Behind wal_path snapshot_path stored s'

module _ {wal_path snapshot_path : Bytes} (apart : wal_path ≢ snapshot_path)
    (apart' : wal_path ≢ temp_path snapshot_path) where
  -- A call that keeps the map, and saves it or not.
  abbrev MaySave : {A : Type 0} → Stored → World → Result A × World → Type 0
  MaySave stored s (ok _, s') =
      (s'.store.entries ≡ s.store.entries) × Rebuilds wal_path snapshot_path stored s'
  MaySave stored s (err _, s') =
      (s'.store.entries ≡ s.store.entries) × Behind wal_path snapshot_path stored s'

  due :
      {A : Type 0} (stored : Stored) (s : World) (r : Result A × World)
      → SavesOver wal_path snapshot_path stored s r
      → MaySave stored s r
  due stored s (ok _, _) (same, b) = (same, inr b)
  due stored s (err _, _) (same, b) = (same, b)

  maybe_snapshot-MaySave :
      (stored : Stored) (s : World)
      → Behind wal_path snapshot_path stored s
      → IsStorable s.store.entries
      → IsMap s.store.entries
      → MaySave stored s (maybe_snapshot s)
  maybe_snapshot-MaySave stored s b storable map =
      subst (λ (r : Result (Unit {0}) × World). MaySave stored s r)
        (sym (maybe_snapshot-some s (Behind-path wal_path stored s b)))
        (elim (Bool-cases (leb snapshot_interval s.store.writes_since_snapshot)) [
          | inl full ↦
              subst (λ (r : Result (Unit {0}) × World). MaySave stored s r)
                (sym (if_true _ _ _ full))
                (due stored s (checkpoint snapshot_path s)
                  (checkpoint-SavesOver apart apart' stored s b storable map))
          | inr early ↦
              subst (λ (r : Result (Unit {0}) × World). MaySave stored s r)
                (sym (if_false _ _ _ early)) (refl, inl b)
        ])

  finished :
      {A : Type 0} (op : Op) (stored : Stored) (s s' : World) (Q : A → Type 0)
      (r : Result A × World)
      → s'.store.entries ≡ apply_op op s.store.entries
      → IsStorable s'.store.entries
      → MayReply wal_path snapshot_path Q (op_on op stored) s' r
      → Parted wal_path snapshot_path op stored s Q r
  finished op stored s s' Q (ok a, _) grown storable (same, q, b) =
      (same ∙ grown, subst IsStorable (sym same) storable, q, b)
  finished op stored s s' Q (err e, _) grown storable (same, b) =
      inl (same ∙ grown, subst IsStorable (sym same) storable, b)

  changed :
      {A : Type 0} (op : Op) (stored : Stored) (s : World) (Q : A → Type 0)
      (next : World → Exec World A) (r : Result (Unit {0}) × World)
      → IsStorable s.store.entries
      → IsMap s.store.entries
      → Logs wal_path snapshot_path op stored s r
      → ((s' t : World)
          → s'.store.entries ≡ s.store.entries
          → Behind wal_path snapshot_path (op_on op stored) t
          → IsStorable t.store.entries
          → IsMap t.store.entries
          → MayReply wal_path snapshot_path Q (op_on op stored) t (next s' t))
      → Parted wal_path snapshot_path op stored s Q
          (continue r.0 (λ _ s'. change op (next s') s') r.1)
  changed op stored s Q next (err e, s') _ _ (b, same) calm = inr (same, b)
  changed op stored s Q next (ok u, s') storable map (w, b, same) calm =
      let k : KvStore = count_write (record s'.store { entries = apply_op op s'.store.entries }) in
      let t : World = record s' { store = k } in
      let grown = ap (apply_op op) same in
      let storable' = apply_op-IsStorable op s.store.entries w storable in
      let map' = apply_op-IsMap op s.store.entries map in
      finished op stored s t Q (next s' t) grown (subst IsStorable (sym grown) storable') (
        calm s' t same (Behind-same wal_path snapshot_path (op_on op stored) s' t b refl refl refl)
          (subst IsStorable (sym grown) storable') (subst IsMap (sym grown) map'))

  replies :
      {A : Type 0} (Q : A → Type 0) (a : A) (stored : Stored) (s : World)
      (r : Result (Unit {0}) × World)
      → Q a
      → MaySave stored s r
      → MayReply wal_path snapshot_path Q stored s (continue r.0 (λ _. pure a) r.1)
  replies Q a stored s (ok u, s') q (same, b) = (same, q, b)
  replies Q a stored s (err e, s') q (same, b) = (same, b)

  without_reply :
      (stored : Stored) (s : World) (r : Result (Unit {0}) × World)
      → MaySave stored s r
      → MayReply wal_path snapshot_path (λ _. Unit) stored s r
  without_reply stored s (ok u, s') (same, b) = (same, tt, b)
  without_reply stored s (err e, s') (same, b) = (same, b)

  pub set-Parted :
      (stored : Stored) (key value : Bytes) (s : World)
      → Behind wal_path snapshot_path stored s
      → IsStorable s.store.entries
      → IsMap s.store.entries
      → Parted wal_path snapshot_path (put key value) stored s (λ _. Unit) (set key value s)
  unfolding set
  set-Parted stored key value s b storable map =
      changed (put key value) stored s (λ _. Unit) (λ _. maybe_snapshot)
        (when_wal (append (put key value)) s) storable map
        (when_wal-Logs apart (put key value) stored s b)
        (λ _ t _ b' storable' map'.
          without_reply _ t (maybe_snapshot t) (maybe_snapshot-MaySave _ t b' storable' map'))

  pub delete-Parted :
      (stored : Stored) (key : Bytes) (s : World)
      → Behind wal_path snapshot_path stored s
      → IsStorable s.store.entries
      → IsMap s.store.entries
      → Parted wal_path snapshot_path
          (remove key)
          stored
          s
          (λ erased. erased ≡ contains key s)
          (delete key s)
  unfolding delete contains
  delete-Parted stored key s b storable map =
      changed (remove key) stored s (λ erased. erased ≡ contains key s)
        (λ s'. maybe_snapshot >> pure (contains key s')) (when_wal (append (remove key)) s) storable
        map (when_wal-Logs apart (remove key) stored s b)
        (λ s' t same b' storable' map'.
          replies (λ erased. erased ≡ contains key s) (contains key s') _ t (maybe_snapshot t)
            (ap (λ m. is_there (lookup key m)) same) (maybe_snapshot-MaySave _ t b' storable' map'))

  -- `SaveSnapshot` replies `true` and the disk rebuilds the map in memory, or throws and the disk
  -- rebuilds what it did.
  abbrev pub SavesAll : Stored → World → Result Bool × World → Type 0
  SavesAll stored s (ok b, s') =
      (b ≡ true) × (s'.store.entries ≡ s.store.entries) × IsDurable wal_path snapshot_path s'
  SavesAll stored s (err _, s') =
      (s'.store.entries ≡ s.store.entries) × Behind wal_path snapshot_path stored s'

  saved_reply :
      (stored : Stored) (s : World) (r : Result (Unit {0}) × World)
      → SavesOver wal_path snapshot_path stored s r
      → SavesAll stored s (continue r.0 (λ _. pure true) r.1)
  saved_reply stored s (ok u, s') (same, b) = (refl, same, b)
  saved_reply stored s (err e, s') (same, b) = (same, b)

  pub save_snapshot-SavesAll :
      (stored : Stored) (s : World)
      → Behind wal_path snapshot_path stored s
      → IsStorable s.store.entries
      → IsMap s.store.entries
      → SavesAll stored s (save_snapshot s)
  save_snapshot-SavesAll stored s b storable map =
      subst (SavesAll stored s) (sym (save_snapshot-some s (Behind-path wal_path stored s b))) (
        saved_reply stored s (checkpoint snapshot_path s)
          (checkpoint-SavesOver apart apart' stored s b storable map))
