-- ===== src/Wal/Offset.antt =====
-- `CurrentOffset` gives the length of the log file, and changes no file.
use agent_kv.Prelude.{
  ℕ, Bytes, codes, [], ◌++◌, length, Option, true, false, if◌then◌else◌, ◌≡◌, sym, ap, subst, ◌∙◌,
  append-nil, append-eq-nil_left,
}
use agent_kv.Exec.{Result, ok, err, Exec, continue}
use agent_kv.Disk.{Channel, Fate, done, fails, told, tell, tick, next_fate, sync, require_good}
use agent_kv.Disk.Writes.{Holds, Wrote, sync-Wrote, sync-bad, require_good-false}
use agent_kv.Disk.Progress.{Went, IsCalm, sync-Went, tick-IsCalm, next_fate-done}
use agent_kv.BinaryIo.Progress.{Went-continue}
use agent_kv.Wal.{current_offset}

-- The outcome: the length and a good stream, or an exception; the files are as before either way.
abbrev pub Measured : Bytes → Bytes → (Bytes → Option Bytes) → Result ℕ × Channel → Type 0
Measured path bytes others (ok n, c) =
    (n ≡ length bytes) × (c.output.good ≡ true) × Holds path bytes others c
Measured path bytes others (err _, c) = Holds path bytes others c

Measured-continue :
    (path bytes : Bytes) (others : Bytes → Option Bytes) (outcome : Result (Unit {0}) × Channel)
    (next : Exec Channel ℕ)
    → Wrote path bytes [] others outcome
    → ((c : Channel)
        → c.output.good ≡ true
        → Holds path bytes others c
        → Measured path bytes others (next c))
    → Measured path bytes others (continue outcome.0 (λ _. next) outcome.1)
Measured-continue path bytes others (ok u, c) next (up, h) goes =
    goes c up (subst (λ b. Holds path b others c) (append-nil bytes) h)
Measured-continue path bytes others (err message, c) next (down, written, missing, joined, h) goes =
    subst (λ b. Holds path b others c)
      (ap (λ b. bytes ++ b) (append-eq-nil_left written missing joined) ∙ append-nil bytes) h

told-Measured :
    (path bytes : Bytes) (others : Bytes → Option Bytes) (fate : Fate) (message : Bytes)
    (c : Channel)
    → c.output.good ≡ true
    → Holds path bytes others c
    → Measured path bytes others (told fate message c)
unfolding told
told-Measured path bytes others done message c up h = (rw h.target (rw h.file), up, h)
told-Measured path bytes others (fails k) message c up h = h

tell-told :
    (message : Bytes) (c : Channel)
    → c.output.good ≡ true
    → tell message c ≡ told (next_fate c.disk.fates) message (record c { disk = tick c.disk })
unfolding tell
tell-told message c up =
    ap
      (λ b.
        if b
        then told (next_fate c.disk.fates) message (record c { disk = tick c.disk })
        else (err message, c))
      up

tell-Measured :
    (path bytes : Bytes) (others : Bytes → Option Bytes) (message : Bytes) (c : Channel)
    → c.output.good ≡ true
    → Holds path bytes others c
    → Measured path bytes others (tell message c)
tell-Measured path bytes others message c up h =
    subst (Measured path bytes others) (sym (tell-told message c up)) (
      told-Measured path bytes others (next_fate c.disk.fates) message
        (record c { disk = tick c.disk }) up
        (record { target = h.target; file = h.file; rest = h.rest; bound = h.bound }))

tell-Went :
    (message : Bytes) (c : Channel) → c.output.good ≡ true → IsCalm c.disk → Went (tell message c)
unfolding told
tell-Went message c up calm =
    subst (λ (r : Result ℕ × Channel). Went r) (sym (tell-told message c up))
      (subst (λ (fate : Fate). Went (told fate message (record c { disk = tick c.disk })))
        (sym (next_fate-done c.disk calm)) (tick-IsCalm c.disk calm))

-- On a good stream to a file: `CurrentOffset` returns the length of that file and leaves the stream
-- good, or throws. No file changes.
pub current_offset-Measured :
    (path bytes : Bytes) (others : Bytes → Option Bytes) (c : Channel)
    → c.output.good ≡ true
    → Holds path bytes others c
    → Measured path bytes others (current_offset c)
unfolding current_offset
current_offset-Measured path bytes others c up h =
    Measured-continue path bytes others
      (require_good (codes "failed to flush WAL before reading offset") (sync c)) _
      (sync-Wrote _ c up h)
      λ c₁ up₁ h₁.
        Measured-continue path bytes others
          (require_good (codes "failed to seek WAL output stream") (sync c₁)) _
          (sync-Wrote _ c₁ up₁ h₁)
          λ c₂ up₂ h₂. tell-Measured path bytes others (codes "failed to read WAL offset") c₂ up₂ h₂

pub current_offset_bad :
    (c : Channel) → c.output.good ≡ false → (e : Bytes) × (current_offset c ≡ (err e, c))
unfolding current_offset
current_offset_bad c down = (
  codes "failed to flush WAL before reading offset",
  rw (
    sync-bad c down,
    require_good-false c (codes "failed to flush WAL before reading offset") down,
  ),
)

-- With no failure to come it returns.
pub current_offset-Went :
    (path bytes : Bytes) (others : Bytes → Option Bytes) (c : Channel)
    → c.output.good ≡ true
    → Holds path bytes others c
    → IsCalm c.disk
    → Went (current_offset c)
unfolding current_offset
current_offset-Went path bytes others c up h calm =
    Went-continue bytes [] _ _
      (sync-Wrote (codes "failed to flush WAL before reading offset") c up h)
      (sync-Went _ c up calm)
      λ c₁ up₁ h₁ calm₁.
        Went-continue _ [] _ _ (sync-Wrote (codes "failed to seek WAL output stream") c₁ up₁ h₁)
          (sync-Went _ c₁ up₁ calm₁)
          λ c₂ up₂ h₂ calm₂. tell-Went (codes "failed to read WAL offset") c₂ up₂ calm₂
