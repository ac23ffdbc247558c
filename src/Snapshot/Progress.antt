-- ===== src/Snapshot/Progress.antt =====
-- A save goes through when no call is to fail and the image has room.
use agent_kv.Prelude.{
  ◌-◌, ◌≤◌, ◌<◌, ◌%◌, ◌^◌, ℕ, Bytes, [], length, ltb-false, ◌≡◌, sym, subst, ◌∙◌, arith, if_true,
  inl, inr,
}
use mathlib.Core.Bool.{false≢true}
use agent_kv.Exec.{Result, ok, err}
use agent_kv.Map.{Map}
use agent_kv.Disk.{Disk, Channel, max_offset, open_trunc}
use agent_kv.Disk.Writes.{Holds, Wrote}
use agent_kv.Disk.Moves.{open_trunc-Holds}
use agent_kv.Disk.Progress.{Went, WentOn, IsCalm, open_trunc-IsCalm, rename-IsCalm}
use agent_kv.Snapshot.{checked_entry_count, temp_path, commit, save_at, save}
use agent_kv.Snapshot.Image.{image, IsEncodable}
use agent_kv.Snapshot.Save.{write_image-Runs}

module _ (path : Bytes) (store : Map) (wal_offset : ℕ) (d : Disk) where
  commit-WentOn :
      (outcome : Result (Unit {0}) × Channel)
      → Wrote (temp_path path) [] (image wal_offset store) d.files outcome
      → Went outcome
      → WentOn (commit path outcome)
  unfolding commit
  commit-WentOn (err message, c) w went = absurd went
  commit-WentOn (ok u, c) (up, h) calm =
      let (moved, calm') =
        rename-IsCalm (temp_path path) path (image wal_offset store) c.disk h.file calm in
      subst WentOn (sym (if_true _ _ _ moved)) calm'

  pub save-WentOn :
      IsEncodable store
      → length store < 2 ^ 32
      → length (image wal_offset store) ≤ max_offset
      → IsCalm d
      → WentOn (save path store wal_offset d)
  unfolding save checked_entry_count save_at
  save-WentOn s few room calm =
      let e : length store % 2 ^ 32 ≡ length store = omega arith in
      let (up, calm') = open_trunc-IsCalm (temp_path path) d calm in
      let h : Holds (temp_path path) [] d.files (open_trunc (temp_path path) d) =
        elim (open_trunc-Holds (temp_path path) d) [
          | inl (_, h) ↦ h
          | inr (down, _) ↦ absurd (false≢true (sym down ∙ up))
        ] in
      let fits : length store ≤ 2 ^ 32 - 1 = omega arith in
      let r = write_image-Runs wal_offset store s in
      rw (ltb-false (2 ^ 32 - 1) (length store) fits, e)
        (subst WentOn (sym (if_true _ _ _ up)) (
          commit-WentOn _ (r.writes.at [] (open_trunc (temp_path path) d) up h)
            (r.goes [] (open_trunc (temp_path path) d) up h calm' (omega arith))))
