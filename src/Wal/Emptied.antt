-- ===== src/Wal/Emptied.antt =====
-- `Clear` leaves an empty log that is open for appending, or throws.
use agent_kv.Prelude.{
  Bytes, codes, [], length, Option, some, true, false, ◌≡◌, ◌≢◌, refl, sym, ap, subst, ◌∙◌, arith,
  if_true, if_false, Bool-cases, inl, inr,
}
use agent_kv.Exec.{Result, ok, err}
use agent_kv.Disk.{
  Channel, contents, or_empty, sync, require_good, open_app, open_trunc, fail_stream,
}
use agent_kv.Disk.Progress.{Went, IsCalm, open_trunc-IsCalm, open_app-IsCalm, sync-IsCalm}
use agent_kv.Disk.Writes.{Holds, Wrote, sync-Wrote, require_good-true, require_good-false}
use agent_kv.Disk.Moves.{open_app-Holds, open_trunc-Holds}
use agent_kv.Wal.{clear, clear_reopened, clear_truncated}

-- The outcome of a clear: an empty log behind a good stream, or an exception and a stream that is
-- not good. No other file changes.
abbrev pub Emptied : Bytes → (Bytes → Option Bytes) → Result (Unit {0}) × Channel → Type 0
Emptied path others (ok _, c) = (c.output.good ≡ true) × Holds path [] others c
Emptied path others (err _, c) =
    (c.output.good ≡ false) × ((q : Bytes) → path ≢ q → c.disk.files q ≡ others q)

module _ (path : Bytes) (others : Bytes → Option Bytes) where
  clear_reopened-Emptied :
      (c : Channel)
      → Holds path [] others c
      → Emptied path others (clear_reopened path (open_app path c.disk))
  unfolding clear_reopened
  clear_reopened-Emptied c h =
      let empty : contents c.disk path ≡ [] = ap or_empty h.file in
      elim (open_app-Holds path c.disk (omega (arith, ap length empty))) [
        | inl (up, h') ↦ subst (Emptied path others) (sym (if_true _ _ _ up)) (
          up,
          record {
            target = h'.target;
            file = h'.file ∙ ap some empty;
            rest = λ q ne. h'.rest q ne ∙ h.rest q ne;
            bound = omega arith;
          },
        )
        | inr (down, files) ↦
            subst (Emptied path others) (sym (if_false _ _ _ down))
              (down, λ q ne. ap (λ (f : Bytes → Option Bytes). f q) files ∙ h.rest q ne)
      ]

  -- A flush of the truncated file, as it went.
  flushed :
      (t : Channel)
      → Wrote path [] [] others (require_good (codes "") (sync t))
      → (q : Bytes) → path ≢ q
      → (sync t).disk.files q ≡ others q
  flushed t w q ne = elim (Bool-cases (sync t).output.good) [
    | inl up ↦
        let (_, h) = subst (Wrote path [] [] others) (require_good-true (sync t) (codes "") up) w in
        h.rest q ne
    | inr down ↦
        let (_, _, _, _, h) =
          subst (Wrote path [] [] others) (require_good-false (sync t) (codes "") down) w in
        h.rest q ne
  ]

  clear_truncated-Emptied :
      (closed t : Channel)
      → closed.output.good ≡ false
      → t.output.good ≡ true
      → Holds path [] others t
      → Emptied path others (clear_truncated path closed (sync t))
  unfolding clear_truncated
  clear_truncated-Emptied closed t shut up h =
      let w = sync-Wrote (codes "") t up h in
      elim (Bool-cases (sync t).output.good) [
        | inl fine ↦
            let (_, h') =
              subst (Wrote path [] [] others) (require_good-true (sync t) (codes "") fine) w in
            subst (Emptied path others) (sym (if_true _ _ _ fine))
              (clear_reopened-Emptied (sync t) h')
        | inr down ↦ subst (Emptied path others) (sym (if_false _ _ _ down)) (shut, flushed t w)
      ]

-- Whatever fails: a clear that returns leaves an empty log and a good stream to it, one that throws
-- leaves a stream that is not good; no other file changes.
pub clear-Emptied : (c : Channel) → Emptied c.output.path c.disk.files (clear c)
unfolding clear
clear-Emptied c = elim (open_trunc-Holds c.output.path c.disk) [
  | inl (up, h) ↦ subst (Emptied c.output.path c.disk.files) (sym (if_true _ _ _ up)) (
      clear_truncated-Emptied c.output.path c.disk.files (fail_stream c)
        (open_trunc c.output.path c.disk) refl up h)
  | inr (down, files) ↦
      subst (Emptied c.output.path c.disk.files) (sym (if_false _ _ _ down))
        (refl, λ q _. ap (λ (f : Bytes → Option Bytes). f q) files)
]

-- With no failure to come it returns.
pub clear-Went : (c : Channel) → IsCalm c.disk → Went (clear c)
unfolding clear clear_truncated clear_reopened
clear-Went c calm =
    let (up, calm₁) = open_trunc-IsCalm c.output.path c.disk calm in
    let (up', calm₂) = sync-IsCalm (open_trunc c.output.path c.disk) up calm₁ in
    let (up'', calm₃) =
      open_app-IsCalm c.output.path (sync (open_trunc c.output.path c.disk)).disk calm₂ in
    subst Went (sym (if_true _ _ _ up))
      (subst Went (sym (if_true _ _ _ up')) (subst Went (sym (if_true _ _ _ up'')) calm₃))
