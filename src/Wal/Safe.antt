-- ===== src/Wal/Safe.antt =====
-- Replay of a log of any bytes: what it makes of a map with distinct keys, whose keys and values are
-- of at most 64 MiB each, is such a map again.
use agent_kv.Prelude.{
  ℕ, zero, suc, ◌+◌, ◌≤◌, ◌%◌, ◌^◌, Bytes, length, length-take, length-drop, drop, Option, none,
  some, Bool, true, false, ltb, ◌||◌, ◌-◌, ◌==◌, if◌then◌else◌, ◌≡◌, refl, ap, arith, Bool-cases,
  inl, inr, none-ne-some, some_pair, ltb-false,
}
use agent_kv.Exec.{ok}
use agent_kv.Map.{Map, IsMap}
use agent_kv.Map.Laws.{insert-IsMap, erase-IsMap}
use agent_kv.Disk.{Disk, max_offset}
use agent_kv.BinaryIo.{consume_primitive, consume_bytes}
use agent_kv.Snapshot.{max_field_length}
use agent_kv.Snapshot.Image.{IsStorable}
use agent_kv.KvStore.Content.{insert-IsStorable, erase-IsStorable}
use agent_kv.Wal.{
  ◌>>=?◌, op_code, set, delete, apply_set, apply_delete, apply_record, next_record, replay_loop,
  or_start, replay_bytes, replay_file, replay_from,
}
use agent_kv.Wal.Replay.{next_record_shrinks}

abbrev pub IsKept : Map → Type 0
IsKept m = IsStorable m × IsMap m

abbrev Keeps : Option Map → Type 0
Keeps none = Unit
Keeps (some m) = IsKept m

bind-Keeps :
    {A : Type 0} (o : Option A) (f : A → Option Map)
    → ((a : A) → o ≡ some a → Keeps (f a))
    → Keeps (o >>=? f)
bind-Keeps none f h = tt
bind-Keeps (some a) f h = h a refl

if-Keeps : (b : Bool) (x y : Option Map) → Keeps x → Keeps y → Keeps (if b then x else y)
if-Keeps true x y k l = k
if-Keeps false x y k l = l

-- A field is no longer than the record.
consume_bytes-short :
    (buffer : Bytes) (offset size : ℕ) (r : Bytes × ℕ)
    → consume_bytes buffer offset size ≡ some r
    → length r.0 ≤ length buffer
unfolding consume_bytes
consume_bytes-short buffer offset size r e =
    elim (Bool-cases (ltb (length buffer) offset || ltb (length buffer - offset) size)) [
      | inl out ↦ absurd (none-ne-some (rw out at e))
      | inr inside ↦
          let (field, _) = some_pair (rw inside at e) in
          omega (
            arith,
            ap length field,
            length-take size (drop offset buffer),
            length-drop offset buffer,
          )
    ]

module _ (bytes : Bytes) (store : Map) (small : length bytes ≤ max_field_length)
    (k : IsKept store) where
  apply_set-Keeps :
      (offset : ℕ) (key : Bytes)
      → length key ≤ length bytes
      → Keeps (apply_set bytes offset key store)
  unfolding apply_set
  apply_set-Keeps offset key short =
      bind-Keeps (consume_primitive 4 bytes offset) _ (λ (value_size, offset') _.
        bind-Keeps (consume_bytes bytes offset' value_size) _ (λ (value, offset'') read.
          let short' = consume_bytes-short bytes offset' value_size (value, offset'') read in
          if-Keeps (offset'' == length bytes) _ _
            (
              insert-IsStorable key value store (omega arith) (omega arith) k.0,
              insert-IsMap key value store k.1,
            )
            tt))

  apply_delete-Keeps : (offset : ℕ) (key : Bytes) → Keeps (apply_delete bytes offset key store)
  unfolding apply_delete
  apply_delete-Keeps offset key =
      if-Keeps (offset == length bytes) _ _
        (erase-IsStorable key store k.0, erase-IsMap key store k.1) tt

  apply_record-Keeps : Keeps (apply_record bytes store)
  unfolding apply_record
  apply_record-Keeps = bind-Keeps (consume_primitive 1 bytes 0) _ (λ (op, offset) _.
      bind-Keeps (consume_primitive 4 bytes offset) _ (λ (key_size, offset') _.
        bind-Keeps (consume_bytes bytes offset' key_size) _ (λ (key, offset'') read.
          if-Keeps (op == op_code set) _ _
            (apply_set-Keeps offset'' key
              (consume_bytes-short bytes offset' key_size (key, offset'') read))
            (if-Keeps (op == op_code delete) _ _ (apply_delete-Keeps offset'' key) tt))))

abbrev KeepsAll : Option (ℕ × Map) → Type 0
KeepsAll none = Unit
KeepsAll (some (_, m)) = IsKept m

-- One record, and the rest of the loop.
applied :
    (fuel recovered : ℕ) (rest : Bytes) (store : Map) (o : Option Map)
    → ((n : ℕ) (m : Map) → IsKept m → KeepsAll (replay_loop fuel rest n m))
    → IsKept store
    → Keeps o
    → KeepsAll (elim o [
      | none ↦ replay_loop fuel rest recovered store
      | some store' ↦ replay_loop fuel rest ((recovered + 1) % 2 ^ 64) store'
    ])
applied fuel recovered rest store none later k _ = later recovered store k
applied fuel recovered rest store (some m) later _ k = later ((recovered + 1) % 2 ^ 64) m k

round :
    (fuel recovered : ℕ) (store : Map) (o : Option (Bytes × Bytes))
    → ((rest : Bytes) (n : ℕ) (m : Map) → IsKept m → KeepsAll (replay_loop fuel rest n m))
    → IsKept store
    → ((bytes rest : Bytes) → o ≡ some (bytes, rest) → length bytes ≤ max_field_length)
    → KeepsAll (elim o [
      | none ↦ some (recovered, store)
      | some (bytes, rest) ↦ elim (apply_record bytes store) [
        | none ↦ replay_loop fuel rest recovered store
        | some store' ↦ replay_loop fuel rest ((recovered + 1) % 2 ^ 64) store'
      ]
    ])
round fuel recovered store none later k small = k
round fuel recovered store (some (bytes, rest)) later k small =
    applied fuel recovered rest store (apply_record bytes store) (later rest) k
      (apply_record-Keeps bytes store (small bytes rest refl) k)

replay_loop-Keeps :
    (fuel : ℕ) (input : Bytes) (recovered : ℕ) (store : Map)
    → IsKept store
    → KeepsAll (replay_loop fuel input recovered store)
unfolding replay_loop
replay_loop-Keeps zero input recovered store k = tt
replay_loop-Keeps (suc fuel) input recovered store k =
    round fuel recovered store (next_record input) (replay_loop-Keeps fuel) k
      (λ bytes rest read. (next_record_shrinks input bytes rest read).1)

or_start-IsKept :
    (o : Option (ℕ × Map)) (store : Map) → KeepsAll o → IsKept store → IsKept (or_start o store).1
or_start-IsKept none store _ k = k
or_start-IsKept (some (_, m)) store k _ = k

replay_file-IsKept :
    (file : Option Bytes) (offset : ℕ) (store : Map)
    → IsKept store
    → IsKept (replay_file file offset store).1
unfolding replay_file replay_bytes
replay_file-IsKept none offset store k = k
replay_file-IsKept (some bytes) offset store k =
    or_start-IsKept (replay_loop (suc (length (drop offset bytes))) (drop offset bytes) 0 store)
      store (replay_loop-Keeps (suc (length (drop offset bytes))) (drop offset bytes) 0 store k) k

-- Whatever bytes the log holds, from an offset that a file can have (at most 2^63 - 1), and into a map
-- with distinct keys whose keys and values are of at most 64 MiB each: replay returns, and the map it
-- leaves has distinct keys, and keys and values of at most 64 MiB each.
pub replay_from-IsKept :
    (path : Bytes) (d : Disk) (offset : ℕ) (store : Map)
    → offset ≤ max_offset
    → IsKept store
    → (n : ℕ) × (m : Map) × (replay_from path d offset store ≡ ok (n, m)) × IsKept m
unfolding replay_from
replay_from-IsKept path d offset store small k =
    let r = replay_file (d.files path) offset store in
    (
      r.0,
      r.1,
      rw (ltb-false max_offset offset small) refl,
      replay_file-IsKept (d.files path) offset store k,
    )
