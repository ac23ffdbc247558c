-- ===== src/KvStore/Entries.antt =====
-- What a request does to the map, over any log and any disk.
use agent_kv.Prelude.{
  ℕ, Bytes, Option, none, some, Bool, true, false, leb, if◌then◌else◌, ◌≡◌, ◌⊎◌, inl, inr, refl,
  sym, ap, subst, ◌∙◌, Bool-cases, if_true, if_false,
}
use agent_kv.Exec.{Result, ok, err, Exec, pure, ◌>>=◌, continue}
use agent_kv.Map.{Map}
use agent_kv.Disk.{OutStream, Channel}
use agent_kv.Snapshot
use agent_kv.Wal.Frame.{Op, put, apply_op}
use agent_kv.Wal.Append.{append}
use agent_kv.KvStore.{
  KvStore, World, on_wal, on_disk, when_wal, wal_offset, update_store, count_write, write_snapshot,
  checkpoint, maybe_snapshot, snapshot_interval, set, save_snapshot,
}
use agent_kv.KvStore.Parted.{change}

-- A call that ends with this map.
abbrev pub Has {ℓ} : {A : Type ℓ} → Map → Result A × World → Type 0
Has m r = r.1.store.entries ≡ m

pub Has-continue :
    {A B : Type 0} (m : Map) (r : Result A × World) (next : A → Exec World B)
    → Has m r
    → ((a : A) (s : World) → s.store.entries ≡ m → Has m (next a s))
    → Has m (continue r.0 next r.1)
Has-continue m (ok a, s) next h goes = goes a s h
Has-continue m (err e, s) next h goes = h

pub logging-Has :
    (o : Option OutStream) (m : Exec Channel (Unit {0})) (s : World)
    → Has {A = Unit {0}} s.store.entries (elim o [ none ↦ (ok tt, s) | some w ↦ on_wal w m s ])
unfolding on_wal
logging-Has none m s = refl
logging-Has (some w) m s = refl

offset-Has :
    (o : Option OutStream) (m : Channel → Result ℕ × Channel) (s : World)
    → Has {A = ℕ} s.store.entries (elim o [ none ↦ (ok 0, s) | some w ↦ on_wal w m s ])
unfolding on_wal
offset-Has none m s = refl
offset-Has (some w) m s = refl

write_snapshot-Has :
    (path : Bytes) (n : ℕ) (s : World) → Has s.store.entries (write_snapshot path n s)
unfolding write_snapshot on_disk
write_snapshot-Has path n s =
    let r = Snapshot.save path s.store.entries n s.disk in
    Has-continue s.store.entries (r.0, record s { disk = r.1 })
      (λ _. update_store (λ k. record k { writes_since_snapshot = 0 })) refl (λ _ _ h. h)

checkpoint-Has : (path : Bytes) (s : World) → Has s.store.entries (checkpoint path s)
unfolding checkpoint wal_offset
checkpoint-Has path s =
    Has-continue s.store.entries (wal_offset s) (write_snapshot path) (offset-Has s.store.wal _ s)
      (λ n s' h. write_snapshot-Has path n s' ∙ h)

due-Has :
    (o : Option Bytes) (s : World)
    → Has {A = Unit {0}} s.store.entries (elim o [
      | none ↦ (ok tt, s)
      | some path ↦
          if leb snapshot_interval s.store.writes_since_snapshot
          then checkpoint path s
          else (ok tt, s)
    ])
due-Has none s = refl
due-Has (some path) s = elim (Bool-cases (leb snapshot_interval s.store.writes_since_snapshot)) [
  | inl due ↦ subst (Has s.store.entries) (sym (if_true _ _ _ due)) (checkpoint-Has path s)
  | inr early ↦ subst (Has s.store.entries) (sym (if_false _ _ _ early)) refl
]

pub maybe_snapshot-Has : (s : World) → Has s.store.entries (maybe_snapshot s)
unfolding maybe_snapshot
maybe_snapshot-Has s = due-Has s.store.snapshot s

-- A call that returns has changed the map by the operation; one that throws may have.
abbrev pub Applied {ℓ} : {A : Type ℓ} → Op → Map → Result A × World → Type 0
Applied op m (ok _, s) = s.store.entries ≡ apply_op op m
Applied op m (err _, s) = (s.store.entries ≡ apply_op op m) ⊎ (s.store.entries ≡ m)

applied :
    (op : Op) (m : Map) (r : Result (Unit {0}) × World) → Has (apply_op op m) r → Applied op m r
applied op m (ok _, s) h = h
applied op m (err _, s) h = inl h

changed :
    (op : Op) (m : Map) (r : Result (Unit {0}) × World)
    → Has m r
    → Applied op m (continue r.0 (λ _. change op maybe_snapshot) r.1)
changed op m (err e, s) h = inr h
changed op m (ok u, s) h =
    let k : KvStore = count_write (record s.store { entries = apply_op op s.store.entries }) in
    applied op m (maybe_snapshot (record s { store = k }))
      (maybe_snapshot-Has (record s { store = k }) ∙ ap (apply_op op) h)

-- A `Set` over any store and disk.
pub set-Applied :
    (key value : Bytes) (s : World) → Applied (put key value) s.store.entries (set key value s)
unfolding set when_wal
set-Applied key value s =
    changed (put key value) s.store.entries (when_wal (append (put key value)) s)
      (logging-Has s.store.wal (append (put key value)) s)

saving-Has :
    (o : Option Bytes) (s : World)
    → Has {A = Bool} s.store.entries
        (elim o [ none ↦ (ok false, s) | some path ↦ (checkpoint path >>= λ _. pure true) s ])
saving-Has none s = refl
saving-Has (some path) s =
    Has-continue s.store.entries (checkpoint path s) (λ _. pure true) (checkpoint-Has path s)
      (λ _ _ h. h)

pub save_snapshot-Has : (s : World) → Has s.store.entries (save_snapshot s)
unfolding save_snapshot
save_snapshot-Has s = saving-Has s.store.snapshot s
