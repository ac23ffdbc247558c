-- ===== src/KvStore/Good.antt =====
-- A call that returns leaves the log's stream good, so the disk alone tells the map.
use agent_kv.Prelude.{
  ℕ, ◌≤◌, Bytes, [], ◌++◌, length, Option, none, some, Bool, true, false, ltb, ltb→lt, ltb→le, leb,
  ◌≡◌, ◌≢◌, inl, inr, refl, sym, ap, subst, ◌∙◌, append-nil, Bool-cases, if_true, if_false,
}
use agent_kv.Exec.{Result, ok, err, pure, continue}
use agent_kv.Map.{Map}
use agent_kv.Disk.{Disk, OutStream, Channel, or_empty, max_offset}
use agent_kv.Disk.Writes.{Wrote}
use agent_kv.Snapshot
use agent_kv.Snapshot.{temp_path}
use agent_kv.Wal.{max_record_length}
use agent_kv.Wal.Append.{append, append-Wrote, append_large}
use agent_kv.Wal.Frame.{Op, put, payload, frame, apply_op}
use agent_kv.Wal.Recovery.{frames}
use agent_kv.KvStore.{
  KvStore, World, on_wal, on_disk, when_wal, wal_offset, update_store, count_write, write_snapshot,
  checkpoint, maybe_snapshot, snapshot_interval, set, save_snapshot,
}
use agent_kv.KvStore.Durable.{IsTail, Backed, IsDurable, Backed-same, Backed-Holds}
use agent_kv.KvStore.Logging.{after, Logged, when_wal-some, when_wal-Logged}
use agent_kv.KvStore.Locate.{Located, wal_offset-Located}
use agent_kv.KvStore.Checkpoint.{maybe_snapshot-some}
use agent_kv.KvStore.Parted.{change, save_snapshot-some}
use agent_kv.KvStore.Sessions.{IsSound}

abbrev pub LogIsGood : World → Type 0
LogIsGood s = (log : OutStream) × (s.store.wal ≡ some log) × (log.good ≡ true)

-- A call that, if it returns, leaves the log good.
abbrev pub Leaves : {A : Type 0} → Result A × World → Type 0
Leaves (ok _, s) = LogIsGood s
Leaves (err _, _) = Unit

is_good : Option OutStream → Bool
is_good none = false
is_good (some log) = log.good

Backed-good :
    {wal_path snapshot_path : Bytes} {entries : Map} {s : World}
    (b : Backed wal_path snapshot_path entries s)
    → LogIsGood s
    → b.log.good ≡ true
unfolding is_good
Backed-good b (log, e, up) = ap is_good (sym b.wal ∙ e) ∙ up

-- With a good log the disk is in order.
pub Backed-IsSound :
    {wal_path snapshot_path : Bytes} {entries : Map} {s : World}
    → Backed wal_path snapshot_path entries s
    → LogIsGood s
    → IsSound wal_path snapshot_path entries s.disk
Backed-IsSound b g =
    let clean : b.tail ≡ [] = subst (λ g. IsTail g b.tail) (Backed-good b g) b.ending in
    let seam : b.before ++ (frames b.ops ++ b.tail) ≡ b.before ++ frames b.ops =
      ap (λ t. b.before ++ (frames b.ops ++ t)) clean
      ∙ ap (λ t. b.before ++ t) (append-nil (frames b.ops)) in
    record {
      base = b.base;
      before = b.before;
      ops = b.ops;
      file = ap or_empty b.file ∙ seam;
      bound = subst (λ f. length f ≤ max_offset) seam b.bound;
      checkpoint = b.checkpoint;
      writable = b.writable;
      rebuilt = b.rebuilt;
    }

write_snapshot_end :
    (s : World) (r : Result (Unit {0}) × Disk)
    → LogIsGood s
    → Leaves (
        continue r.0
          (λ _. update_store (λ k. record k { writes_since_snapshot = 0 }))
          (record s { disk = r.1 }))
write_snapshot_end s (ok u, d) g = g
write_snapshot_end s (err e, d) g = tt

write_snapshot-Leaves :
    (path : Bytes) (n : ℕ) (s : World) → LogIsGood s → Leaves (write_snapshot path n s)
unfolding write_snapshot on_disk
write_snapshot-Leaves path n s g =
    write_snapshot_end s (Snapshot.save path s.store.entries n s.disk) g

Leaves-pure :
    {A B : Type 0} (b : B) (r : Result A × World)
    → Leaves r
    → Leaves (continue r.0 (λ _. pure b) r.1)
Leaves-pure b (ok a, s) g = g
Leaves-pure b (err e, s) g = tt

module _ {wal_path snapshot_path : Bytes} (apart : wal_path ≢ snapshot_path) where
  located :
      (s : World) (r : Result ℕ × World)
      → Located wal_path snapshot_path s.store.entries s r
      → Leaves (continue r.0 (write_snapshot snapshot_path) r.1)
  located s (ok n, s') (_, _, c) = write_snapshot-Leaves snapshot_path n s' (c.log, c.wal, c.good)
  located s (err e, s') _ = tt

  checkpoint-Leaves :
      (s : World) → IsDurable wal_path snapshot_path s → Leaves (checkpoint snapshot_path s)
  unfolding checkpoint
  checkpoint-Leaves s b = located s (wal_offset s) (wal_offset-Located apart b)

  maybe_snapshot-Leaves :
      (s : World) → IsDurable wal_path snapshot_path s → LogIsGood s → Leaves (maybe_snapshot s)
  maybe_snapshot-Leaves s b g =
      subst (λ (r : Result (Unit {0}) × World). Leaves r) (sym (maybe_snapshot-some s b.snapshot))
        (elim (Bool-cases (leb snapshot_interval s.store.writes_since_snapshot)) [
          | inl due ↦
              subst (λ (r : Result (Unit {0}) × World). Leaves r) (sym (if_true _ _ _ due))
                (checkpoint-Leaves s b)
          | inr early ↦
              subst (λ (r : Result (Unit {0}) × World). Leaves r) (sym (if_false _ _ _ early)) g
        ])

  wrote :
      (path old bytes : Bytes) (s : World) (r : Result (Unit {0}) × Channel)
      → Wrote path old bytes s.disk.files r
      → Leaves (r.0, after s r.1)
  wrote path old bytes s (ok u, c) (up, h) = (c.output, refl, up)
  wrote path old bytes s (err e, c) _ = tt

  logging-Leaves :
      (op : Op) (s : World)
      → IsDurable wal_path snapshot_path s
      → LogIsGood s
      → Leaves (when_wal (append op) s)
  unfolding on_wal
  logging-Leaves op s b g =
      let c : Channel = record { output = b.log; disk = s.disk } in
      subst (λ (r : Result (Unit {0}) × World). Leaves r) (sym (when_wal-some (append op) s b.wal))
        (elim (Bool-cases (ltb max_record_length (length (payload op)))) [
          | inl large ↦
              let (e, eq) = append_large op c (ltb→lt _ _ large) in
              subst (λ (r : Result (Unit {0}) × Channel). Leaves (r.0, after s r.1)) (sym eq) tt
          | inr fits ↦ wrote wal_path _ (frame op) s (append op c) (
              append-Wrote op c (Backed-good b g) (Backed-Holds b)
                (ltb→le max_record_length (length (payload op)) fits))
        ])

  changed :
      (op : Op) (s : World) (r : Result (Unit {0}) × World)
      → Logged wal_path snapshot_path op s.store.entries s r
      → Leaves r
      → Leaves (continue r.0 (λ _. change op maybe_snapshot) r.1)
  changed op s (err e, s') _ _ = tt
  changed op s (ok u, s') (b, same) g =
      let k : KvStore = count_write (record s'.store { entries = apply_op op s'.store.entries }) in
      maybe_snapshot-Leaves (record s' { store = k })
        (subst (λ m. Backed wal_path snapshot_path m (record s' { store = k }))
          (sym (ap (apply_op op) same)) (Backed-same b (record s' { store = k }) refl refl refl))
        g

  pub set-Leaves :
      (key value : Bytes) (s : World)
      → IsDurable wal_path snapshot_path s
      → LogIsGood s
      → Leaves (set key value s)
  unfolding set
  set-Leaves key value s b g =
      changed (put key value) s (when_wal (append (put key value)) s)
        (when_wal-Logged apart b (put key value)) (logging-Leaves (put key value) s b g)

  pub save_snapshot-Leaves :
      (apart' : wal_path ≢ temp_path snapshot_path) (s : World)
      → IsDurable wal_path snapshot_path s
      → Leaves (save_snapshot s)
  save_snapshot-Leaves apart' s b =
      subst (λ (r : Result Bool × World). Leaves r) (sym (save_snapshot-some s b.snapshot))
        (Leaves-pure true (checkpoint snapshot_path s) (checkpoint-Leaves s b))
