-- ===== src/Snapshot/Erased.antt =====
-- `Clear` removes the snapshot and the temporary file, or throws.
use agent_kv.Prelude.{
  Bytes, bytes_eq_refl, bytes_eq-ne, codes, ◌++◌, Option, none, some, ◌≡◌, ◌≢◌, refl, ap, ◌∙◌,
}
use agent_kv.Exec.{Result, ok, err, Exec, continue}
use agent_kv.Disk.Progress.{WentOn, IsCalm, tick-IsCalm, next_fate-done}
use agent_kv.Disk.{
  Disk, Fate, done, fails, Removal, removed, no_entry, refused, removal, remove, next_fate, tick,
}
use agent_kv.Snapshot.Save.{temp_path-ne}
use agent_kv.Snapshot.{remove_if_exists, temp_path, clear}

abbrev Gone : Bytes → Disk → Result (Unit {0}) × Disk → Type 0
Gone path d (ok _, d') = (d'.files path ≡ none) × ((q : Bytes) → path ≢ q → d'.files q ≡ d.files q)
Gone path d (err _, d') = d'.files ≡ d.files

abbrev reported : Bytes → Removal × Disk → Result (Unit {0}) × Disk
reported message (status, d) = elim status [
  | refused ↦ (err message, d)
  | removed ↦ (ok tt, d)
  | no_entry ↦ (ok tt, d)
]

removal-Gone :
    (fate : Fate) (file : Option Bytes) (path message : Bytes) (d : Disk)
    → d.files path ≡ file
    → Gone path d (reported message (removal fate file path d))
unfolding removal
removal-Gone (fails k) file path message d e = refl
removal-Gone done none path message d e = (e, λ q _. refl)
removal-Gone done (some bytes) path message d e =
    (rw (bytes_eq_refl path), λ q ne. rw (bytes_eq-ne path q ne))

remove_if_exists-Gone :
    (path description : Bytes) (d : Disk) → Gone path d (remove_if_exists path description d)
unfolding remove_if_exists remove
remove_if_exists-Gone path description d =
    removal-Gone (next_fate d.fates) (d.files path) path
      (codes "failed to remove " ++ (description ++ (codes ": " ++ path))) (tick d) refl

-- The outcome of a clear: the snapshot and the temporary file are not there, or an exception. No
-- other file changes.
abbrev pub Erased : Bytes → Disk → Result (Unit {0}) × Disk → Type 0
Erased path d (ok _, d') =
    (d'.files path ≡ none)
    × (d'.files (temp_path path) ≡ none)
    × ((q : Bytes) → path ≢ q → temp_path path ≢ q → d'.files q ≡ d.files q)
Erased path d (err _, d') = (q : Bytes) → path ≢ q → temp_path path ≢ q → d'.files q ≡ d.files q

Gone-Erased :
    (path : Bytes) (d d' : Disk) (r : Result (Unit {0}) × Disk)
    → d'.files path ≡ none
    → ((q : Bytes) → path ≢ q → d'.files q ≡ d.files q)
    → Gone (temp_path path) d' r
    → Erased path d r
Gone-Erased path d d' (ok u, d₂) gone rest (gone', rest') =
    (rest' path (temp_path-ne path) ∙ gone, gone', λ q ne ne'. rest' q ne' ∙ rest q ne)
Gone-Erased path d d' (err e, d₂) gone rest files =
    λ q ne _. ap (λ (f : Bytes → Option Bytes). f q) files ∙ rest q ne

continue-Erased :
    (path : Bytes) (d : Disk) (r : Result (Unit {0}) × Disk) (next : Exec Disk (Unit {0}))
    → ((d' : Disk) → Gone (temp_path path) d' (next d'))
    → Gone path d r
    → Erased path d (continue r.0 (λ _. next) r.1)
continue-Erased path d (ok u, d') next after (gone, rest) =
    Gone-Erased path d d' (next d') gone rest (after d')
continue-Erased path d (err e, d') next after files =
    λ q _ _. ap (λ (f : Bytes → Option Bytes). f q) files

-- Whatever fails: a clear that returns leaves no snapshot and no temporary file; no other file
-- changes.
pub clear-Erased : (path : Bytes) (d : Disk) → Erased path d (clear path d)
unfolding clear
clear-Erased path d =
    continue-Erased path d (remove_if_exists path (codes "snapshot file") d)
      (remove_if_exists (temp_path path) (codes "temp snapshot file"))
      (remove_if_exists-Gone (temp_path path) (codes "temp snapshot file"))
      (remove_if_exists-Gone path (codes "snapshot file") d)

removal-WentOn :
    (fate : Fate) (file : Option Bytes) (path message : Bytes) (d : Disk)
    → fate ≡ done
    → IsCalm d
    → WentOn (reported message (removal fate file path d))
unfolding removal
removal-WentOn fate none path message d e calm = rw e calm
removal-WentOn fate (some bytes) path message d e calm = rw e calm

remove_if_exists-WentOn :
    (path description : Bytes) (d : Disk) → IsCalm d → WentOn (remove_if_exists path description d)
unfolding remove_if_exists remove
remove_if_exists-WentOn path description d calm =
    removal-WentOn (next_fate d.fates) (d.files path) path
      (codes "failed to remove " ++ (description ++ (codes ": " ++ path))) (tick d)
      (next_fate-done d calm) (tick-IsCalm d calm)

continue-WentOn :
    (r : Result (Unit {0}) × Disk) (next : Exec Disk (Unit {0}))
    → WentOn r
    → ((d : Disk) → IsCalm d → WentOn (next d))
    → WentOn (continue r.0 (λ _. next) r.1)
continue-WentOn (ok u, d) next calm goes = goes d calm
continue-WentOn (err e, d) next calm goes = absurd calm

-- With no failure to come a clear returns.
pub clear-WentOn : (path : Bytes) (d : Disk) → IsCalm d → WentOn (clear path d)
unfolding clear
clear-WentOn path d calm =
    continue-WentOn (remove_if_exists path (codes "snapshot file") d)
      (remove_if_exists (temp_path path) (codes "temp snapshot file"))
      (remove_if_exists-WentOn path (codes "snapshot file") d calm)
      (remove_if_exists-WentOn (temp_path path) (codes "temp snapshot file"))
