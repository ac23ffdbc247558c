-- ===== src/KvStore/Content.antt =====
-- Maps that operations of the log build can be saved and loaded again.
use agent_kv.Prelude.{
  ◌≤◌, List, [], ◌∷◌, ◌++◌, Bytes, length, All, arith, bytes_eq, Bool-cases, inl, inr, ◌≡◌, refl,
}
use agent_kv.Map.{Map, insert, erase, IsMap}
use agent_kv.Map.Laws.{insert-IsMap, erase-IsMap}
use agent_kv.Snapshot.{max_field_length}
use agent_kv.Snapshot.Image.{IsStorable}
use agent_kv.Wal.Frame.{Op, put, remove, apply_op, IsWritable, length-payload-put}
use agent_kv.Wal.Recovery.{apply_ops}

pub insert-IsStorable :
    (key value : Bytes) (store : Map)
    → length key ≤ max_field_length
    → length value ≤ max_field_length
    → IsStorable store
    → IsStorable (insert key value store)
unfolding insert
insert-IsStorable key value [] k v s = (k, v, tt)
insert-IsStorable key value ((j, w) ∷ store) k v (hj, hw, s) = elim (Bool-cases (bytes_eq j key)) [
  | inl same ↦ rw same (hj, v, s)
  | inr other ↦ rw other (hj, hw, insert-IsStorable key value store k v s)
]

pub erase-IsStorable : (key : Bytes) (store : Map) → IsStorable store → IsStorable (erase key store)
unfolding erase
erase-IsStorable key [] s = tt
erase-IsStorable key ((j, w) ∷ store) (hj, hw, s) = elim (Bool-cases (bytes_eq j key)) [
  | inl same ↦ rw same s
  | inr other ↦ rw other (hj, hw, erase-IsStorable key store s)
]

pub apply_op-IsStorable :
    (op : Op) (store : Map) → IsWritable op → IsStorable store → IsStorable (apply_op op store)
apply_op-IsStorable (put key value) store w s =
    let total = length-payload-put key value in
    insert-IsStorable key value store (omega (arith, total)) (omega (arith, total)) s
apply_op-IsStorable (remove key) store w s = erase-IsStorable key store s

pub apply_op-IsMap : (op : Op) (store : Map) → IsMap store → IsMap (apply_op op store)
apply_op-IsMap (put key value) store m = insert-IsMap key value store m
apply_op-IsMap (remove key) store m = erase-IsMap key store m

pub apply_ops-IsStorable :
    (ops : List Op) (store : Map)
    → All IsWritable ops
    → IsStorable store
    → IsStorable (apply_ops ops store)
apply_ops-IsStorable [] store _ s = s
apply_ops-IsStorable (op ∷ ops) store (w, ws) s =
    apply_ops-IsStorable ops (apply_op op store) ws (apply_op-IsStorable op store w s)

pub apply_ops-IsMap : (ops : List Op) (store : Map) → IsMap store → IsMap (apply_ops ops store)
apply_ops-IsMap [] store m = m
apply_ops-IsMap (op ∷ ops) store m =
    apply_ops-IsMap ops (apply_op op store) (apply_op-IsMap op store m)

pub apply_ops-append :
    (ops : List Op) (op : Op) (store : Map)
    → apply_ops (ops ++ (op ∷ [])) store ≡ apply_op op (apply_ops ops store)
apply_ops-append [] op store = refl
apply_ops-append (o ∷ ops) op store = apply_ops-append ops op (apply_op o store)
