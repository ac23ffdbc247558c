-- ===== src/Map/Table.antt =====
-- Maps up to the order of their entries: an unordered map has no order that a caller may rely on.
use mathlib.Core.Quot
use mathlib.Core.Quot.{Quot, Quot-set}
use native.Mathlib.Nat.{ℕ_set}
use agent_kv.Prelude.{
  ℕ, suc, Bytes, bytes_eq, bytes_eq_iff, [], ◌∷◌, length, Option, none, some, none-ne-some,
  bytes_eq_refl, false, if◌then◌else◌, ◌≡◌, refl, sym, ap, ◌∙◌, arith, Bool-cases, inl, inr,
}
use agent_kv.Map.{Map, lookup, insert, erase, IsMap}
use agent_kv.Map.Laws.{lookup-insert, lookup-erase, insert-IsMap, erase-IsMap}

-- A map with distinct keys.
abbrev pub KeyedMap : Type 0
KeyedMap = (m : Map) × IsMap m

abbrev pub SameLookups : KeyedMap → KeyedMap → Type 0
SameLookups a b = (key : Bytes) → lookup key a.0 ≡ lookup key b.0

abbrev pub Table : Type 0
Table = Quot SameLookups

abbrev pub table : (m : Map) → IsMap m → Table
table m i = Quot.mk (m, i)

unfoldable pub find : Bytes → Table → Option Bytes
find key = Quot.lift (hlevel) (λ a. lookup key a.0) (λ a b same. same key)

-- Removing a key that is there removes one entry.
length-erase :
    (key value : Bytes) (m : Map)
    → lookup key m ≡ some value
    → length m ≡ suc (length (erase key m))
unfolding lookup erase
length-erase key value [] here = absurd (none-ne-some here)
length-erase key value ((j, w) ∷ m) here = elim (Bool-cases (bytes_eq j key)) [
  | inl same ↦ rw same refl
  | inr other ↦ rw other (ap suc (length-erase key value m (rw other at here)))
]

-- Maps with distinct keys and the same lookups have as many entries.
pub length-eq :
    (a b : Map)
    → IsMap a
    → IsMap b
    → ((key : Bytes) → lookup key a ≡ lookup key b)
    → length a ≡ length b
unfolding lookup
length-eq [] [] i j same = refl
length-eq [] ((k, v) ∷ b) i j same = absurd (none-ne-some (rw (bytes_eq_refl k) at (same k)))
length-eq ((k, v) ∷ a) b i j same =
    let here : lookup k b ≡ some v = sym (same k) ∙ rw (bytes_eq_refl k) refl in
    let rest = length-eq a (erase k b) i.1 (erase-IsMap k b j) (λ key.
      elim (Bool-cases (bytes_eq k key)) [
        | inl e ↦
            rw (lookup-erase k key b j)
              (rw e (ap (λ x. lookup x a) (sym ((bytes_eq_iff k key).0 e)) ∙ i.0))
        | inr e ↦ rw (lookup-erase k key b j) (rw e (rw e at (same key)))
      ]) in
    ap suc rest ∙ sym (length-erase k v b here)

unfoldable pub count : Table → ℕ
count = Quot.lift ℕ_set (λ a. length a.0) (λ a b same. length-eq a.0 b.0 a.1 b.1 same)

unfoldable pub put_entry : Bytes → Bytes → Table → Table
put_entry key value =
    Quot.lift Quot-set (λ a. table (insert key value a.0) (insert-IsMap key value a.0 a.1))
      (λ a b same.
        Quot.sound
          (λ j. rw (lookup-insert key j value a.0, lookup-insert key j value b.0, same j) refl))

unfoldable pub drop_entry : Bytes → Table → Table
drop_entry key =
    Quot.lift Quot-set (λ a. table (erase key a.0) (erase-IsMap key a.0 a.1))
      (λ a b same.
        Quot.sound (λ j. rw (lookup-erase key j a.0 a.1, lookup-erase key j b.0 b.1, same j) refl))

-- A table is what its lookups say.
pub find-injective : (t u : Table) → ((key : Bytes) → find key t ≡ find key u) → t ≡ u
unfolding find
find-injective =
    Quot.ind (λ t. hlevel Quot-set)
      (λ a. Quot.ind (λ u. hlevel Quot-set) (λ b same. Quot.sound same))

pub find-put_entry :
    (key value j : Bytes) (t : Table)
    → find j (put_entry key value t) ≡ (if bytes_eq key j then some value else find j t)
unfolding find put_entry
find-put_entry key value j = Quot.ind (λ t. hlevel) (λ a. lookup-insert key j value a.0)

pub find-drop_entry :
    (key j : Bytes) (t : Table)
    → find j (drop_entry key t) ≡ (if bytes_eq key j then none else find j t)
unfolding find drop_entry
find-drop_entry key j = Quot.ind (λ t. hlevel) (λ a. lookup-erase key j a.0 a.1)

-- Entries of different keys may be put in any order.
pub put_entry_comm :
    (k v j w : Bytes) (t : Table)
    → bytes_eq k j ≡ false
    → put_entry k v (put_entry j w t) ≡ put_entry j w (put_entry k v t)
put_entry_comm k v j w t other = find-injective _ _ (λ i.
    rw
      (
        find-put_entry k v i (put_entry j w t),
        find-put_entry j w i t,
        find-put_entry j w i (put_entry k v t),
        find-put_entry k v i t,
      )
      (ground (arith, bytes_eq_iff k j, bytes_eq_iff k i, bytes_eq_iff j i)))
