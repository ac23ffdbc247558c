-- ===== src/Disk/Moves.antt =====
-- What renames and opened files leave behind, whatever their fates.
use agent_kv.Prelude.{
  ◌⊎◌, ◌≤◌, Bytes, bytes_eq_refl, bytes_eq-ne, [], length, none, some, true, false, ◌≡◌, refl,
  arith, inl, inr,
}
use agent_kv.Disk.{
  Fate, done, fails, Disk, contents, update, tick, max_offset, opened, renamed, open_app,
  open_trunc, rename, next_fate,
}
use agent_kv.Disk.Writes.{Holds}

-- A rename moves the whole file, or nothing happens.
renamed-moves :
    (fate : Fate) (from to bytes : Bytes) (d : Disk)
    → (((renamed fate (some bytes) from to d).0 ≡ true)
        × ((renamed fate (some bytes) from to d).1.files
            ≡ update (update d.files from none) to (some bytes)))
      ⊎ (((renamed fate (some bytes) from to d).0 ≡ false)
          × ((renamed fate (some bytes) from to d).1.files ≡ d.files))
unfolding renamed
renamed-moves done from to bytes d = inl (refl, refl)
renamed-moves (fails k) from to bytes d = inr (refl, refl)

pub rename-moves :
    (from to bytes : Bytes) (d : Disk)
    → d.files from ≡ some bytes
    → (((rename from to d).0 ≡ true)
        × ((rename from to d).1.files ≡ update (update d.files from none) to (some bytes)))
      ⊎ (((rename from to d).0 ≡ false) × ((rename from to d).1.files ≡ d.files))
unfolding rename
rename-moves from to bytes d file =
    rw file (renamed-moves (next_fate d.fates) from to bytes (tick d))

-- A log that is opened keeps its contents, and is made if it is not there.
opened-Holds :
    (fate : Fate) (path bytes : Bytes) (d : Disk)
    → length bytes ≤ max_offset
    → (((opened fate (some bytes) path d).output.good ≡ true)
        × Holds path bytes d.files (opened fate (some bytes) path d))
      ⊎ (((opened fate (some bytes) path d).output.good ≡ false)
          × ((opened fate (some bytes) path d).disk.files ≡ d.files))
unfolding opened
opened-Holds done path bytes d small = inl (
  refl,
  record {
    target = refl;
    file = rw (bytes_eq_refl path);
    rest = λ q ne. rw (bytes_eq-ne path q ne);
    bound = small;
  },
)
opened-Holds (fails k) path bytes d small = inr (refl, refl)

pub open_app-Holds :
    (path : Bytes) (d : Disk)
    → length (contents d path) ≤ max_offset
    → (((open_app path d).output.good ≡ true)
        × Holds path (contents d path) d.files (open_app path d))
      ⊎ (((open_app path d).output.good ≡ false) × ((open_app path d).disk.files ≡ d.files))
unfolding open_app
open_app-Holds path d small = opened-Holds (next_fate d.fates) path (contents d path) (tick d) small

-- A file that is truncated is empty if the stream is good; else nothing happens.
pub open_trunc-Holds :
    (path : Bytes) (d : Disk)
    → (((open_trunc path d).output.good ≡ true) × Holds path [] d.files (open_trunc path d))
      ⊎ (((open_trunc path d).output.good ≡ false) × ((open_trunc path d).disk.files ≡ d.files))
unfolding open_trunc
open_trunc-Holds path d = opened-Holds (next_fate d.fates) path [] (tick d) (omega arith)
