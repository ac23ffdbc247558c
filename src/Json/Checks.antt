-- ===== src/Json/Checks.antt =====
-- When each check of the validators passes.
use agent_kv.Prelude.{
  Bytes, bytes_eq_iff, List, [], ◌∷◌, All, Bool, Bool-cases, true, false, ◌≡◌, ◌↔◌, inl, inr, refl,
  sym, ◌∙◌, arith,
}
use mathlib.Core.Bool.{false≢true}
use agent_kv.Json.{JsonLib}
use agent_kv.Json.Shape.{OneOf, OnlyChildren, HasString, HasObject}
use agent_kv.Json.Helpers.{
  ValidationResult, and_then, require, is_allowed, reject_unknown, reject_unknown_children,
  require_string_child, require_object_child,
}

-- A result accepts exactly when `P` holds.
abbrev pub AcceptsIff : ValidationResult → Type 0 → Type 0
AcceptsIff r P = (r.ok ≡ true) ↔ P

and_then_at :
    {P Q : Type 0} (b : Bool) (error : Bytes) (s : ValidationResult)
    → ((b ≡ true) ↔ P)
    → (P → AcceptsIff s Q)
    → AcceptsIff (and_then (record { ok = b; error = error }) s) (P × Q)
unfolding and_then
and_then_at true error s first next =
    (λ h. (first.0 refl, (next (first.0 refl)).0 h), λ (p, q). (next p).1 q)
and_then_at false error s first next =
    (λ h. absurd (false≢true h), λ (p, q). absurd (false≢true (first.1 p)))

pub and_then-AcceptsIff :
    {P Q : Type 0} (r s : ValidationResult)
    → AcceptsIff r P
    → (P → AcceptsIff s Q)
    → AcceptsIff (and_then r s) (P × Q)
and_then-AcceptsIff r s first next = and_then_at r.ok r.error s first next

pub require-AcceptsIff : (b : Bool) (message : Bytes) → AcceptsIff (require b message) (b ≡ true)
unfolding require
require-AcceptsIff true message = (λ h. h, λ h. h)
require-AcceptsIff false message = (λ h. h, λ h. h)

is_allowed_iff :
    (allowed : List Bytes) (key : Bytes) → (is_allowed allowed key ≡ true) ↔ OneOf key allowed
unfolding is_allowed
is_allowed_iff [] key = (λ h. false≢true h, λ h. absurd h)
is_allowed_iff (a ∷ allowed) key = ground (arith, bytes_eq_iff a key, is_allowed_iff allowed key)

reject_unknown-AcceptsIff :
    {Json : Type 0} (items : List (Bytes × Json)) (allowed : List Bytes) (path : Bytes)
    → AcceptsIff
        (reject_unknown items allowed path)
        (All (λ (item : Bytes × Json). OneOf item.0 allowed) items)
unfolding reject_unknown
reject_unknown-AcceptsIff [] allowed path = (λ _. tt, λ _. refl)
reject_unknown-AcceptsIff ((key, value) ∷ items) allowed path =
    let known = is_allowed_iff allowed key in
    let rest = reject_unknown-AcceptsIff items allowed path in
    elim (Bool-cases (is_allowed allowed key)) [
      | inl fine ↦ rw fine (λ h. (known.0 fine, rest.0 h), λ (_, all). rest.1 all)
      | inr bad ↦
          rw bad
            (λ h. absurd (false≢true h), λ (one, _). absurd (false≢true (sym bad ∙ known.1 one)))
    ]

module _ {Json : Type 0} (lib : JsonLib Json) where
  pub reject_unknown_children-AcceptsIff :
      (object : Json) (allowed : List Bytes) (path : Bytes)
      → AcceptsIff
          (reject_unknown_children lib object allowed path)
          (OnlyChildren lib object allowed)
  unfolding reject_unknown_children
  reject_unknown_children-AcceptsIff object allowed path =
      reject_unknown-AcceptsIff (lib.items object) allowed path

  pub require_string_child-AcceptsIff :
      (object : Json) (field path : Bytes)
      → AcceptsIff (require_string_child lib object field path) (HasString lib object field)
  unfolding require_string_child
  require_string_child-AcceptsIff object field path =
      and_then-AcceptsIff _ _ (require-AcceptsIff _ _) (λ _. require-AcceptsIff _ _)

  pub require_object_child-AcceptsIff :
      (object : Json) (field path : Bytes)
      → AcceptsIff (require_object_child lib object field path) (HasObject lib object field)
  unfolding require_object_child
  require_object_child-AcceptsIff object field path =
      and_then-AcceptsIff _ _ (require-AcceptsIff _ _) (λ _. require-AcceptsIff _ _)
