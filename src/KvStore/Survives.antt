-- ===== src/KvStore/Survives.antt =====
-- What the store keeps over its lives is the map in memory and what outlives the process.
use agent_kv.Prelude.{Bytes, List, [], none, ◌≡◌, ◌≢◌, ◌⊎◌, inl, inr, refl, sym, ap, subst, ◌∙◌}
use agent_kv.Map.{lookup, IsMap}
use agent_kv.Disk.{Disk}
use agent_kv.Snapshot.{temp_path}
use agent_kv.Snapshot.Image.{IsStorable}
use agent_kv.Wal.Frame.{Op, put, remove, apply_op}
use agent_kv.KvStore.{World, contains, is_there}
use agent_kv.KvStore.Content.{apply_op-IsMap}
use agent_kv.KvStore.Recovery.{log_is_good}
use agent_kv.KvStore.Behind.{kept, op_on, Behind, Behind-path, Behind-log}
use agent_kv.KvStore.Between.{Keeps, held, durable, dead, begun, unstarted}
use agent_kv.KvStore.Parted.{
  Rebuilds, Parted, set-Parted, delete-Parted, SavesAll, save_snapshot-SavesAll,
}
use agent_kv.KvStore.Cleared.{Cleared, clear_persistence-Cleared}
use agent_kv.KvStore.Starting.{IsSound-new}
use agent_kv.KvStore.Life.{
  Event, Phase, up, down, Step, set_ok, set_err, delete_ok, delete_err, snapshot_ok, snapshot_err,
  clear_ok, death, start_ok, start_err, Steps, Pair, BothBy, Same, Moves, History,
}

module _ {wal_path snapshot_path : Bytes} (apart : wal_path ≢ snapshot_path)
    (apart' : wal_path ≢ temp_path snapshot_path) where
  module _ (p : Pair) (s s' : World) (k : Keeps wal_path snapshot_path (up s) p) where
    returned :
        (op : Op)
        → s'.store.entries ≡ apply_op op s.store.entries
        → IsStorable s'.store.entries
        → Rebuilds wal_path snapshot_path (op_on op p.stored) s'
        → (q : Pair) × BothBy op p q × Keeps wal_path snapshot_path (up s') q
    returned op grown storable' (inl b) =
        let (_, _, map, e) = k in
        (
          record { memory = s'.store.entries; stored = op_on op p.stored },
          (grown ∙ ap (apply_op op) e, inl refl),
          held apart apart' (op_on op p.stored) s' b storable'
              (subst IsMap (sym grown) (apply_op-IsMap op s.store.entries map)),
        )
    returned op grown _ (inr b) =
        let (_, _, _, e) = k in
        let whole = grown ∙ ap (apply_op op) e in
        (
          record { memory = s'.store.entries; stored = kept s'.store.entries },
          (whole, inr (ap kept whole)),
          durable apart apart' s' b,
        )

    stayed :
        s'.store.entries ≡ s.store.entries
        → Behind wal_path snapshot_path p.stored s'
        → Keeps wal_path snapshot_path (up s') p
    stayed same b =
        let (_, storable, map, e) = k in
        (b, subst IsStorable (sym same) storable, subst IsMap (sym same) map, same ∙ e)

    threw :
        (op : Op)
        → ((s'.store.entries ≡ apply_op op s.store.entries)
            × IsStorable s'.store.entries
            × Behind wal_path snapshot_path (op_on op p.stored) s')
          ⊎ ((s'.store.entries ≡ s.store.entries) × Behind wal_path snapshot_path p.stored s')
        → (q : Pair) × (BothBy op p q ⊎ Same p q) × Keeps wal_path snapshot_path (up s') q
    threw op (inl (grown, storable, b)) =
        let (q, both, k') = returned op grown storable (inl b) in (q, inl both, k')
    threw op (inr (same, b)) = (p, inr (refl, refl), stayed same b)

  Step-Moves :
      {e : Event} {x y : Phase} (p : Pair)
      → Step wal_path snapshot_path e x y
      → Keeps wal_path snapshot_path x p
      → (q : Pair) × Moves e p q × Keeps wal_path snapshot_path y q
  unfolding contains
  Step-Moves p (set_ok {key} {value} {s} {s'} e) k =
      let (b, storable, map, _) = k in
      let (grown, good, _, b') =
        subst (Parted wal_path snapshot_path (put key value) p.stored s (λ _. Unit)) e
          (set-Parted apart apart' p.stored key value s b storable map) in
      returned p s s' k (put key value) grown good b'
  Step-Moves p (set_err {key} {value} {e = _} {s} {s'} e) k =
      let (b, storable, map, _) = k in
      threw p s s' k (put key value) (
        subst (Parted wal_path snapshot_path (put key value) p.stored s (λ _. Unit)) e
          (set-Parted apart apart' p.stored key value s b storable map))
  Step-Moves p (delete_ok {key} {erased} {s} {s'} e) k =
      let (b, storable, map, h) = k in
      let (grown, good, reply, b') =
        subst
          (Parted wal_path snapshot_path (remove key) p.stored s
            (λ erased. erased ≡ contains key s))
          e (delete-Parted apart apart' p.stored key s b storable map) in
      let (q, both, k') = returned p s s' k (remove key) grown good b' in
      (q, (reply ∙ ap (λ n. is_there (lookup key n)) h, both), k')
  Step-Moves p (delete_err {key} {e = _} {s} {s'} e) k =
      let (b, storable, map, _) = k in
      threw p s s' k (remove key) (
        subst
          (Parted wal_path snapshot_path (remove key) p.stored s
            (λ erased. erased ≡ contains key s))
          e (delete-Parted apart apart' p.stored key s b storable map))
  Step-Moves p (snapshot_ok {reply} {s} {s'} e) (b, storable, map, h) =
      let (replied, same, b') =
        subst (SavesAll apart apart' p.stored s) e
          (save_snapshot-SavesAll apart apart' p.stored s b storable map) in
      (
        record { memory = s'.store.entries; stored = kept s'.store.entries },
        (replied, same ∙ h, ap kept (same ∙ h)),
        durable apart apart' s' b',
      )
  Step-Moves p (snapshot_err {e = _} {s} {s'} e) k =
      let (b, storable, map, _) = k in
      let (same, b') =
        subst (SavesAll apart apart' p.stored s) e
          (save_snapshot-SavesAll apart apart' p.stored s b storable map) in
      (p, (refl, refl), stayed p s s' k same b')
  Step-Moves p (clear_ok {s} {s'} e) (b, storable, map, h) =
      let (log, wal, target) = Behind-log wal_path snapshot_path p.stored s b in
      let (same, _, b') =
        subst (Cleared wal_path snapshot_path s) e (
          clear_persistence-Cleared apart apart' s (Behind-path wal_path p.stored s b) wal
            target) in
      (
        record { memory = s'.store.entries; stored = kept [] },
        (same ∙ h, refl),
        held apart apart' (kept []) s' b' (subst IsStorable (sym same) storable)
            (subst IsMap (sym same) map),
      )
  Step-Moves p (death {s} fates) (b, _, _, _) =
      dead apart apart' p.stored p.memory s fates (log_is_good s) b refl
  Step-Moves p (start_ok {d} {s} {r} e) k = begun apart apart' p.stored d s r e k
  Step-Moves p (start_err {d} {s} {e = message} e fates) k =
      (p, refl, unstarted apart apart' p.stored d s fates message e k)

  Steps-History :
      {es : List Event} {x y : Phase} (p : Pair)
      → Steps wal_path snapshot_path es x y
      → Keeps wal_path snapshot_path x p
      → (q : Pair) × History es p q × Keeps wal_path snapshot_path y q
  Steps-History p Steps.rest k = (p, History.rest, k)
  Steps-History p (Steps.then step steps) k =
      let (q, moves, k') = Step-Moves p step k in
      let (r, history, k'') = Steps-History q steps k' in (r, History.then moves history, k'')

  -- From a disk with no log and no snapshot, with the log at another path than the snapshot and its
  -- temporary file: through any number of processes, each serving any requests under any failures of
  -- the disk, except a `ClearPersistence` that throws, and dying between any two requests, every call
  -- and every start acts as `Moves` says on the pair of the map in memory and what outlives the
  -- process. An operation that returned is in the map in memory, and in the stored map while that is
  -- known. If the process dies while the log's stream is good, a start that returns finds the stored
  -- map. If it dies behind a log whose stream has failed, a start that returns finds the stored map,
  -- or it with one operation more; from then on, until a snapshot is saved or the persistence is
  -- cleared, the stored map is not known, and nothing is stated of what a further start finds.
  pub life-History :
      {es : List Event} {x : Phase} (d : Disk)
      → d.files wal_path ≡ none
      → d.files snapshot_path ≡ none
      → Steps wal_path snapshot_path es (down d) x
      → (q : Pair) × History es (record { memory = []; stored = kept [] }) q
        × Keeps wal_path snapshot_path x q
  life-History d log snap steps =
      Steps-History (record { memory = []; stored = kept [] }) steps
        (IsSound-new wal_path snapshot_path d log snap)
