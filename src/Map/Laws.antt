-- ===== src/Map/Laws.antt =====
-- The laws of the map, in the form of a test on the keys.
use agent_kv.Prelude.{
  Bytes, bytes_eq, bytes_eq_iff, [], ◌∷◌, ◌++◌, none, some, ◌≡◌, refl, arith, if◌then◌else◌,
  Bool-cases, inl, inr,
}
use agent_kv.Map.{Map, lookup, insert, erase, IsMap}

pub lookup-insert :
    (k j v : Bytes) (m : Map)
    → lookup j (insert k v m) ≡ (if bytes_eq k j then some v else lookup j m)
unfolding lookup insert
lookup-insert k j v [] = refl
lookup-insert k j v ((i, w) ∷ m) =
    ground (arith, bytes_eq_iff k j, bytes_eq_iff i k, bytes_eq_iff i j, lookup-insert k j v m)

pub lookup-erase :
    (k j : Bytes) (m : Map)
    → IsMap m
    → lookup j (erase k m) ≡ (if bytes_eq k j then none else lookup j m)
unfolding lookup erase
lookup-erase k j [] h = ground arith
lookup-erase k j ((i, w) ∷ m) h =
    ground (arith, bytes_eq_iff k j, bytes_eq_iff i k, bytes_eq_iff i j, lookup-erase k j m h.1)

pub insert-IsMap : (k v : Bytes) (m : Map) → IsMap m → IsMap (insert k v m)
unfolding lookup insert
insert-IsMap k v [] h = (refl, tt)
insert-IsMap k v ((i, w) ∷ m) h = elim (Bool-cases (bytes_eq i k)) [
  | inl same ↦ rw same h
  | inr other ↦ rw other (
    rw (lookup-insert k i v m) (ground (arith, bytes_eq_iff i k, bytes_eq_iff k i)),
    insert-IsMap k v m h.1,
  )
]

pub erase-IsMap : (k : Bytes) (m : Map) → IsMap m → IsMap (erase k m)
unfolding lookup erase
erase-IsMap k [] h = tt
erase-IsMap k ((i, w) ∷ m) h = elim (Bool-cases (bytes_eq i k)) [
  | inl same ↦ rw same h.1
  | inr other ↦
      rw other (rw (lookup-erase k i m h.1) (ground (arith, bytes_eq_iff k i)), erase-IsMap k m h.1)
]

-- A new key goes to the end.
pub insert-new : (k v : Bytes) (m : Map) → lookup k m ≡ none → insert k v m ≡ m ++ ((k, v) ∷ [])
unfolding lookup insert
insert-new k v [] h = refl
insert-new k v ((i, w) ∷ m) h = ground (arith, insert-new k v m)

pub lookup-append : (m n : Map) (k : Bytes) → lookup k m ≡ none → lookup k (m ++ n) ≡ lookup k n
unfolding lookup
lookup-append [] n k h = refl
lookup-append ((i, w) ∷ m) n k h = ground (arith, lookup-append m n k)

pub lookup-append-none : (m n : Map) (k : Bytes) → lookup k (m ++ n) ≡ none → lookup k m ≡ none
unfolding lookup
lookup-append-none [] n k h = refl
lookup-append-none ((i, w) ∷ m) n k h = ground (arith, lookup-append-none m n k)

-- In a map with distinct keys no key occurs before its entry.
pub IsMap-before : (m rest : Map) (k v : Bytes) → IsMap (m ++ ((k, v) ∷ rest)) → lookup k m ≡ none
unfolding lookup
IsMap-before [] rest k v h = refl
IsMap-before ((i, w) ∷ m) rest k v h = ground (
  arith,
  IsMap-before m rest k v h.1,
  lookup-append-none m ((k, v) ∷ rest) i,
  lookup-append m ((k, v) ∷ rest) i,
  bytes_eq_iff i k,
  bytes_eq_iff k i,
)
