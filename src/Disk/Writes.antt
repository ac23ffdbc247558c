-- ===== src/Disk/Writes.antt =====
-- What the calls on streams and files leave behind, whatever their fates.
use agent_kv.Prelude.{
  ◌≤◌, ◌+◌, Bytes, bytes_eq_refl, bytes_eq-ne, [], ◌++◌, length, length-append, length-take, take,
  drop, take-append-drop, Option, some, Bool, true, false, ◌≡◌, ◌≢◌, refl, sym, ap, subst, ◌∙◌,
  arith, leb, leb→le, if◌then◌else◌, append-nil, append_assoc, Bool-cases, inl, inr,
}
use agent_kv.Exec.{Result, ok, err, Exec, ◌>>◌, continue}
use agent_kv.Disk.{
  Fate, done, fails, Channel, contents, update, tick, max_offset, fail_stream, append_file, land,
  deliver, settle, write, sync, modify, require_good, next_fate,
}

pub update_self :
    (files : Bytes → Option Bytes) (path : Bytes) (file : Option Bytes)
    → update files path file path ≡ file
update_self files path file = rw (bytes_eq_refl path)

pub update_ne :
    (files : Bytes → Option Bytes) {path other : Bytes} (file : Option Bytes)
    → path ≢ other
    → update files path file other ≡ files other
update_ne files {path} {other} file h = rw (bytes_eq-ne path other h)

-- The stream writes to `path`, the file holds `bytes`, and all other files are as in `others`.
pub record Holds (path bytes : Bytes) (others : Bytes → Option Bytes) (c : Channel) : Type 0 where
  pub target : c.output.path ≡ path
  pub file : c.disk.files path ≡ some bytes
  pub rest : (q : Bytes) → path ≢ q → c.disk.files q ≡ others q
  pub bound : length bytes ≤ max_offset

-- The outcome of writing `bytes` behind `old`: all of it and a good stream, or a front of it, an
-- exception, and a stream that is not good any more.
abbrev pub Wrote :
    Bytes → Bytes → Bytes → (Bytes → Option Bytes) → Result (Unit {0}) × Channel → Type 0
Wrote path old bytes others (ok _, c) = (c.output.good ≡ true) × Holds path (old ++ bytes) others c
Wrote path old bytes others (err _, c) =
    (c.output.good ≡ false)
    × (written : Bytes) × (missing : Bytes) × (written ++ missing ≡ bytes)
    × Holds path (old ++ written) others c

append_file-Holds :
    {path old : Bytes} {others : Bytes → Option Bytes} {c : Channel} (bytes : Bytes)
    → Holds path old others c
    → length old + length bytes ≤ max_offset
    → Holds path (old ++ bytes) others (append_file bytes c)
append_file-Holds {path} {old} {others} {c} bytes h fits = record {
  target = h.target;
  file = rw h.target (rw h.file (rw (bytes_eq_refl path)));
  rest = λ q ne. rw h.target (update_ne c.disk.files _ ne ∙ h.rest q ne);
  bound = omega (arith, length-append old bytes);
}

pub Holds-same :
    {path old : Bytes} {others : Bytes → Option Bytes} {c : Channel}
    → Holds path old others c
    → Holds path (old ++ []) others c
Holds-same {path} {old} h = record {
  target = h.target;
  file = rw (append-nil old) h.file;
  rest = h.rest;
  bound = rw (append-nil old) h.bound;
}

fail_stream-Holds :
    {path old : Bytes} {others : Bytes → Option Bytes} {c : Channel}
    → Holds path old others c
    → Holds path old others (fail_stream c)
fail_stream-Holds h = record { target = h.target; file = h.file; rest = h.rest; bound = h.bound }

-- The test of a stream, and a call on it, by the stream's state.
module _ (c : Channel) where
  abbrev checked : Bytes → Bool → Result (Unit {0}) × Channel
  checked message b = if b then (ok tt, c) else (err message, c)

  pub require_good-true :
      (message : Bytes) → c.output.good ≡ true → require_good message c ≡ (ok tt, c)
  unfolding require_good
  require_good-true message up = ap (checked message) up

  pub require_good-false :
      (message : Bytes) → c.output.good ≡ false → require_good message c ≡ (err message, c)
  unfolding require_good
  require_good-false message down = ap (checked message) down

  pub write-good :
      (bytes : Bytes)
      → c.output.good ≡ true
      → write bytes c ≡ deliver (next_fate c.disk.fates) bytes (record c { disk = tick c.disk })
  unfolding write
  write-good bytes up =
      ap
        (λ b.
          if b then deliver (next_fate c.disk.fates) bytes (record c { disk = tick c.disk }) else c)
        up

  pub write-bad : (bytes : Bytes) → c.output.good ≡ false → write bytes c ≡ c
  unfolding write
  write-bad bytes down =
      ap
        (λ b.
          if b then deliver (next_fate c.disk.fates) bytes (record c { disk = tick c.disk }) else c)
        down

  pub sync-good :
      c.output.good ≡ true
      → sync c ≡ settle (next_fate c.disk.fates) (record c { disk = tick c.disk })
  unfolding sync
  sync-good up =
      ap (λ b. if b then settle (next_fate c.disk.fates) (record c { disk = tick c.disk }) else c)
        up

  pub sync-bad : c.output.good ≡ false → sync c ≡ c
  unfolding sync
  sync-bad down =
      ap (λ b. if b then settle (next_fate c.disk.fates) (record c { disk = tick c.disk }) else c)
        down

-- A stream that is still good has written all; one that is not has written a front.
whole :
    {path : Bytes} {others : Bytes → Option Bytes} (old bytes message : Bytes) (c : Channel)
    → c.output.good ≡ true
    → Holds path (old ++ bytes) others c
    → Wrote path old bytes others (require_good message c)
whole {path} {others} old bytes message c up h =
    subst (Wrote path old bytes others) (sym (require_good-true c message up)) (up, h)

broken :
    {path : Bytes} {others : Bytes → Option Bytes} (old written missing message : Bytes)
    (c : Channel)
    → c.output.good ≡ false
    → Holds path (old ++ written) others c
    → Wrote path old (written ++ missing) others (require_good message c)
broken {path} {others} old written missing message c down h =
    subst (Wrote path old (written ++ missing) others) (sym (require_good-false c message down))
      (down, written, missing, refl, h)

land-Wrote :
    (fate : Fate) {path old : Bytes} {others : Bytes → Option Bytes} (bytes message : Bytes)
    (c : Channel)
    → c.output.good ≡ true
    → Holds path old others c
    → length old + length bytes ≤ max_offset
    → Wrote path old bytes others (require_good message (land fate bytes c))
unfolding land
land-Wrote done {old = old} bytes message c up h fits =
    whole old bytes message _ up (append_file-Holds bytes h fits)
land-Wrote (fails k) {path} {old} {others} bytes message c up h fits =
    let short : length old + length (take k bytes) ≤ max_offset =
      omega (arith, length-take k bytes) in
    subst
      (λ b.
        Wrote path old b others (require_good message (fail_stream (append_file (take k bytes) c))))
      (take-append-drop k bytes)
      (broken old (take k bytes) (drop k bytes) message _ refl
        (fail_stream-Holds (append_file-Holds (take k bytes) h short)))

-- The length that the test of a write reads.
pub length-contents :
    {path old : Bytes} {others : Bytes → Option Bytes} (c : Channel)
    → Holds path old others c
    → length (contents c.disk c.output.path) ≡ length old
length-contents c h = rw h.target (rw h.file)

deliver-Wrote :
    (fate : Fate) {path old : Bytes} {others : Bytes → Option Bytes} (bytes message : Bytes)
    (c : Channel)
    → c.output.good ≡ true
    → Holds path old others c
    → Wrote path old bytes others (require_good message (deliver fate bytes c))
unfolding deliver
deliver-Wrote fate {old = old} bytes message c up h =
    let total = length-contents c h in
    elim (Bool-cases (leb (length (contents c.disk c.output.path) + length bytes) max_offset)) [
      | inl fits ↦
          rw fits (land-Wrote fate bytes message c up h (omega (arith, total, leb→le _ _ fits)))
      | inr full ↦
          rw full
            (broken old [] bytes message (fail_stream c) refl (fail_stream-Holds (Holds-same h)))
    ]

settle-Wrote :
    (fate : Fate) {path old : Bytes} {others : Bytes → Option Bytes} (message : Bytes) (c : Channel)
    → c.output.good ≡ true
    → Holds path old others c
    → Wrote path old [] others (require_good message (settle fate c))
unfolding settle
settle-Wrote done {old = old} message c up h = whole old [] message c up (Holds-same h)
settle-Wrote (fails k) {old = old} message c up h =
    broken old [] [] message (fail_stream c) refl (fail_stream-Holds (Holds-same h))

module _ {path old : Bytes} {others : Bytes → Option Bytes} (message : Bytes) (c : Channel)
    (up : c.output.good ≡ true) (h : Holds path old others c) where
  ticked : Holds path old others (record c { disk = tick c.disk })
  ticked = record { target = h.target; file = h.file; rest = h.rest; bound = h.bound }

  -- A checked write on a good stream.
  pub write-Wrote :
      (bytes : Bytes)
      → Wrote path old bytes others ((modify (write bytes) >> require_good message) c)
  write-Wrote bytes =
      subst (λ c'. Wrote path old bytes others (require_good message c'))
        (sym (write-good c bytes up))
        (deliver-Wrote (next_fate c.disk.fates) bytes message _ up ticked)

  -- A checked flush or seek on a good stream.
  pub sync-Wrote : Wrote path old [] others ((modify sync >> require_good message) c)
  sync-Wrote =
      subst (λ c'. Wrote path old [] others (require_good message c')) (sym (sync-good c up))
        (settle-Wrote (next_fate c.disk.fates) message _ up ticked)

Wrote-assoc :
    (path : Bytes) (others : Bytes → Option Bytes) (old bytes more : Bytes)
    (outcome : Result (Unit {0}) × Channel)
    → Wrote path (old ++ bytes) more others outcome
    → Wrote path old (bytes ++ more) others outcome
Wrote-assoc path others old bytes more (ok u, c) (up, h) =
    (up, subst (λ b. Holds path b others c) (append_assoc old bytes more) h)
Wrote-assoc path others old bytes more (err message, c) (down, written, missing, joined, h) = (
  down,
  bytes ++ written,
  missing,
  append_assoc bytes written missing ∙ ap (λ b. bytes ++ b) joined,
  subst (λ b. Holds path b others c) (append_assoc old bytes written) h,
)

-- Two writes in a row are one write of both.
pub Wrote-continue :
    (path : Bytes) (others : Bytes → Option Bytes) (old bytes more : Bytes)
    (outcome : Result (Unit {0}) × Channel) (next : Exec Channel (Unit {0}))
    → Wrote path old bytes others outcome
    → ((c : Channel)
        → c.output.good ≡ true
        → Holds path (old ++ bytes) others c
        → Wrote path (old ++ bytes) more others (next c))
    → Wrote path old (bytes ++ more) others (continue outcome.0 (λ _. next) outcome.1)
Wrote-continue path others old bytes more (ok u, c) next (up, h) goes =
    Wrote-assoc path others old bytes more (next c) (goes c up h)
Wrote-continue path others old bytes more (err message, c) next (down, written, missing, joined, h)
      goes =
    (
      down,
      written,
      missing ++ more,
      sym (append_assoc written missing more) ∙ ap (λ b. b ++ more) joined,
      h,
    )

-- A stream that is not good writes nothing, and the check behind it throws.
pub write_bad :
    (bytes message : Bytes) (c : Channel)
    → c.output.good ≡ false
    → (modify (write bytes) >> require_good message) c ≡ (err message, c)
write_bad bytes message c down =
    ap (require_good message) (write-bad c bytes down) ∙ require_good-false c message down

pub sync_bad :
    (message : Bytes) (c : Channel)
    → c.output.good ≡ false
    → (modify sync >> require_good message) c ≡ (err message, c)
sync_bad message c down =
    ap (require_good message) (sync-bad c down) ∙ require_good-false c message down
