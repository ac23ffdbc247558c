-- ===== src/Disk/Progress.antt =====
-- When no call is to fail and the files have room, every checked call on a file goes through.
use agent_kv.Prelude.{
  ◌+◌, ◌≤◌, Bytes, [], length, Option, some, true, ◌≡◌, refl, sym, ap, subst, le→leb,
}
use agent_kv.Exec.{Result, ok, err, ◌>>◌}
use agent_kv.Disk.{
  Fate, done, fails, Disk, Channel, contents, tick, max_offset, land, deliver, settle, opened,
  renamed, write, sync, open_app, open_trunc, rename, modify, require_good, next_fate, later_fates,
}
use agent_kv.Disk.Writes.{write-good, sync-good, require_good-true}

-- A call on a channel that has returned, with no failure to come.
abbrev pub Went {ℓ} : {A : Type ℓ} → Result A × Channel → Type 0
Went (ok _, c) = c.disk.fates ≡ []
Went (err _, _) = ⊥

-- The same of a call on a disk.
abbrev pub WentOn {ℓ} : {A : Type ℓ} → Result A × Disk → Type 0
WentOn (ok _, d) = d.fates ≡ []
WentOn (err _, _) = ⊥

-- No call is to fail.
abbrev pub IsCalm : Disk → Type 0
IsCalm d = d.fates ≡ []

checked-Went :
    (message : Bytes) (c : Channel)
    → c.output.good ≡ true
    → c.disk.fates ≡ []
    → Went (require_good message c)
checked-Went message c up calm = subst Went (sym (require_good-true c message up)) calm

pub tick-IsCalm : (d : Disk) → IsCalm d → IsCalm (tick d)
tick-IsCalm d calm = ap later_fates calm

pub next_fate-done : (d : Disk) → IsCalm d → next_fate d.fates ≡ done
next_fate-done d calm = ap next_fate calm

deliver-Went :
    (fate : Fate) (bytes message : Bytes) (c : Channel)
    → fate ≡ done
    → c.output.good ≡ true
    → IsCalm c.disk
    → length (contents c.disk c.output.path) + length bytes ≤ max_offset
    → Went (require_good message (deliver fate bytes c))
unfolding deliver land
deliver-Went done bytes message c _ up calm room =
    rw (le→leb _ _ room) (checked-Went message _ up calm)
deliver-Went (fails k) bytes message c e up calm room = absurd (cc e)

settle-Went :
    (fate : Fate) (message : Bytes) (c : Channel)
    → fate ≡ done
    → c.output.good ≡ true
    → IsCalm c.disk
    → Went (require_good message (settle fate c))
unfolding settle
settle-Went done message c _ up calm = checked-Went message c up calm
settle-Went (fails k) message c e up calm = absurd (cc e)

module _ (message : Bytes) (c : Channel) (up : c.output.good ≡ true) (calm : IsCalm c.disk) where
  pub write-Went :
      (bytes : Bytes)
      → length (contents c.disk c.output.path) + length bytes ≤ max_offset
      → Went ((modify (write bytes) >> require_good message) c)
  write-Went bytes room =
      subst (λ c'. Went (require_good message c')) (sym (write-good c bytes up))
        (deliver-Went (next_fate c.disk.fates) bytes message (record c { disk = tick c.disk })
          (next_fate-done c.disk calm) up (tick-IsCalm c.disk calm) room)

  pub sync-Went : Went ((modify sync >> require_good message) c)
  sync-Went =
      subst (λ c'. Went (require_good message c')) (sym (sync-good c up))
        (settle-Went (next_fate c.disk.fates) message (record c { disk = tick c.disk })
          (next_fate-done c.disk calm) up (tick-IsCalm c.disk calm))

settle-IsCalm :
    (fate : Fate) (c : Channel)
    → fate ≡ done
    → c.output.good ≡ true
    → IsCalm c.disk
    → ((settle fate c).output.good ≡ true) × IsCalm (settle fate c).disk
unfolding settle
settle-IsCalm done c _ up calm = (up, calm)
settle-IsCalm (fails k) c e up calm = absurd (cc e)

pub sync-IsCalm :
    (c : Channel)
    → c.output.good ≡ true
    → IsCalm c.disk
    → ((sync c).output.good ≡ true) × IsCalm (sync c).disk
sync-IsCalm c up calm =
    subst (λ (c' : Channel). (c'.output.good ≡ true) × IsCalm c'.disk) (sym (sync-good c up))
      (settle-IsCalm (next_fate c.disk.fates) (record c { disk = tick c.disk })
        (next_fate-done c.disk calm) up (tick-IsCalm c.disk calm))

-- What a call that went returned.
pub Went-ok : (r : Result (Unit {0}) × Channel) → Went r → r ≡ (ok tt, r.1)
Went-ok (ok u, c) went = refl
Went-ok (err e, c) went = absurd went

opened-IsCalm :
    (fate : Fate) (file : Option Bytes) (path : Bytes) (d : Disk)
    → fate ≡ done
    → IsCalm d
    → ((opened fate file path d).output.good ≡ true) × IsCalm (opened fate file path d).disk
unfolding opened
opened-IsCalm done file path d _ calm = (refl, calm)
opened-IsCalm (fails k) file path d e calm = absurd (cc e)

pub open_trunc-IsCalm :
    (path : Bytes) (d : Disk)
    → IsCalm d
    → ((open_trunc path d).output.good ≡ true) × IsCalm (open_trunc path d).disk
unfolding open_trunc
open_trunc-IsCalm path d calm =
    opened-IsCalm (next_fate d.fates) (some []) path (tick d) (next_fate-done d calm)
      (tick-IsCalm d calm)

pub open_app-IsCalm :
    (path : Bytes) (d : Disk)
    → IsCalm d
    → ((open_app path d).output.good ≡ true) × IsCalm (open_app path d).disk
unfolding open_app
open_app-IsCalm path d calm =
    opened-IsCalm (next_fate d.fates) (some (contents d path)) path (tick d) (next_fate-done d calm)
      (tick-IsCalm d calm)

renamed-IsCalm :
    (fate : Fate) (bytes from to : Bytes) (d : Disk)
    → fate ≡ done
    → IsCalm d
    → ((renamed fate (some bytes) from to d).0 ≡ true)
      × IsCalm (renamed fate (some bytes) from to d).1
unfolding renamed
renamed-IsCalm done bytes from to d _ calm = (refl, calm)
renamed-IsCalm (fails k) bytes from to d e calm = absurd (cc e)

pub rename-IsCalm :
    (from to bytes : Bytes) (d : Disk)
    → d.files from ≡ some bytes
    → IsCalm d
    → ((rename from to d).0 ≡ true) × IsCalm (rename from to d).1
unfolding rename
rename-IsCalm from to bytes d file calm = rw file (
    renamed-IsCalm (next_fate d.fates) bytes from to (tick d) (next_fate-done d calm)
      (tick-IsCalm d calm))
