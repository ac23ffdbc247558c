-- ===== src/Wal/Append.antt =====
-- `AppendSet` and `AppendDelete` write the frame of their operation, whole or up to a failure.
use agent_kv.Prelude.{
  ℕ, ◌≤◌, ◌<◌, ◌+◌, ◌%◌, ◌^◌, Bytes, codes, [], ◌++◌, length, Option, true, false, ◌≡◌, subst,
  arith, ltb-false, append-nil, append_assoc, lt→ltb, inl, inr,
}
use agent_kv.Exec.{Result-cases, Result, ok, err, Exec}
use agent_kv.Disk.{Channel}
use agent_kv.Disk.Writes.{Holds, Wrote, write_bad}
use agent_kv.BinaryIo.{le_bytes, checked_size, write_primitive}
use agent_kv.BinaryIo.Streams.{checked_size-fits}
use agent_kv.BinaryIo.Progress.{Runs, Runs-lift, Runs-then, Runs-primitive, Runs-bytes, Runs-sync}
use agent_kv.Wal.{max_record_length, checked_record_length, append_set, append_delete}
use agent_kv.Wal.Frame.{
  Op, put, remove, frame, payload, IsWritable, length-payload-put, length-payload-remove,
}

checked_record_length-fits : (n : ℕ) → n ≤ max_record_length → checked_record_length n ≡ ok n
unfolding checked_record_length
checked_record_length-fits n h =
    let e : n % 2 ^ 32 ≡ n = omega arith in rw (ltb-false max_record_length n h, e)

checked_record_length-large :
    (n : ℕ)
    → max_record_length < n
    → checked_record_length n ≡ err (codes "WAL record is too large")
unfolding checked_record_length
checked_record_length-large n h = rw (lt→ltb max_record_length n h)

set_fields : (key value : Bytes) → Bytes
set_fields key value =
    le_bytes 4 (1 + 4 + length key + 4 + length value)
    ++ (le_bytes 1 1
        ++ (le_bytes 4 (length key) ++ (key ++ (le_bytes 4 (length value) ++ (value ++ [])))))

set_fields-eq-frame : (key value : Bytes) → set_fields key value ≡ frame (put key value)
unfolding set_fields
set_fields-eq-frame key value = rw length-payload-put (simp (append_assoc, append-nil))

delete_fields : (key : Bytes) → Bytes
delete_fields key =
    le_bytes 4 (1 + 4 + length key) ++ (le_bytes 1 2 ++ (le_bytes 4 (length key) ++ (key ++ [])))

delete_fields-eq-frame : (key : Bytes) → delete_fields key ≡ frame (remove key)
unfolding delete_fields
delete_fields-eq-frame key = rw length-payload-remove (simp append-nil)

module _ {path : Bytes} {others : Bytes → Option Bytes} where
  append_set-Runs :
      (key value : Bytes)
      → IsWritable (put key value)
      → Runs path others (frame (put key value)) (append_set key value)
  unfolding append_set set_fields
  append_set-Runs key value w =
      let total = length-payload-put key value in
      subst (λ b. Runs path others b (append_set key value)) (set_fields-eq-frame key value)
        (Runs-lift _ _ (checked_size-fits key (codes "WAL key") (omega (arith, total))) (
          Runs-lift _ _ (checked_size-fits value (codes "WAL value") (omega (arith, total))) (
            Runs-lift _ _
              (checked_record_length-fits (1 + 4 + length key + 4 + length value)
                (omega (arith, total)))
              (Runs-then
                (Runs-primitive 4 (1 + 4 + length key + 4 + length value) (codes "WAL primitive"))
                (Runs-then (Runs-primitive 1 1 (codes "WAL primitive")) (
                  Runs-then (Runs-primitive 4 (length key) (codes "WAL primitive")) (
                    Runs-then (Runs-bytes key (codes "WAL bytes")) (
                      Runs-then (Runs-primitive 4 (length value) (codes "WAL primitive")) (
                        Runs-then (Runs-bytes value (codes "WAL bytes"))
                          (Runs-sync (codes "failed to write WAL SET record")))))))))))

  append_delete-Runs :
      (key : Bytes)
      → IsWritable (remove key)
      → Runs path others (frame (remove key)) (append_delete key)
  unfolding append_delete delete_fields
  append_delete-Runs key w =
      let total = length-payload-remove key in
      subst (λ b. Runs path others b (append_delete key)) (delete_fields-eq-frame key)
        (Runs-lift _ _ (checked_size-fits key (codes "WAL key") (omega (arith, total))) (
          Runs-lift _ _ (checked_record_length-fits (1 + 4 + length key) (omega (arith, total))) (
            Runs-then (Runs-primitive 4 (1 + 4 + length key) (codes "WAL primitive")) (
              Runs-then (Runs-primitive 1 2 (codes "WAL primitive")) (
                Runs-then (Runs-primitive 4 (length key) (codes "WAL primitive")) (
                  Runs-then (Runs-bytes key (codes "WAL bytes"))
                    (Runs-sync (codes "failed to write WAL DELETE record"))))))))

-- The append of an operation.
abbrev pub append : Op → Exec Channel (Unit {0})
append (put key value) = append_set key value
append (remove key) = append_delete key

pub append-Runs :
    {path : Bytes} {others : Bytes → Option Bytes} (op : Op)
    → IsWritable op
    → Runs path others (frame op) (append op)
append-Runs (put key value) w = append_set-Runs key value w
append-Runs (remove key) w = append_delete-Runs key w

-- On a good stream, for an operation whose record is not too large: the append returns and the log
-- has grown by the whole frame, or it throws, the stream is not good any more, and the log has grown
-- by a front of that frame. No other file changes.
pub append-Wrote :
    (op : Op) {path old : Bytes} {others : Bytes → Option Bytes} (c : Channel)
    → c.output.good ≡ true
    → Holds path old others c
    → IsWritable op
    → Wrote path old (frame op) others (append op c)
append-Wrote op {path} {old} {others} c up h w = (append-Runs op w).writes.at old c up h

-- An exception with nothing changed.
abbrev pub Refused : {A : Type 0} → Channel → Result A × Channel → Type 0
Refused c outcome = (e : Bytes) × (outcome ≡ (err e, c))

-- A stream that is not good fails the first write.
write_primitive_bad :
    (w value : ℕ) (description : Bytes) (c : Channel)
    → c.output.good ≡ false
    → write_primitive w value description c ≡ (err (codes "failed to write " ++ description), c)
unfolding write_primitive
write_primitive_bad w value description c down = write_bad (le_bytes w value) _ c down

module _ (c : Channel) (down : c.output.good ≡ false) where
  append_set_bad : (key value : Bytes) → Refused c (append_set key value c)
  unfolding append_set
  append_set_bad key value = elim (Result-cases (checked_size key (codes "WAL key"))) [
    | inr (e, bad) ↦ (e, rw bad)
    | inl (k, fine) ↦ elim (Result-cases (checked_size value (codes "WAL value"))) [
      | inr (e, bad) ↦ (e, rw (fine, bad))
      | inl (v, fine') ↦ elim (Result-cases (checked_record_length (1 + 4 + k + 4 + v))) [
        | inr (e, bad) ↦ (e, rw (fine, fine', bad))
        | inl (n, fine'') ↦ (
          codes "failed to write WAL primitive",
          rw (fine, fine', fine'', write_primitive_bad 4 n (codes "WAL primitive") c down),
        )
      ]
    ]
  ]

  append_delete_bad : (key : Bytes) → Refused c (append_delete key c)
  unfolding append_delete
  append_delete_bad key = elim (Result-cases (checked_size key (codes "WAL key"))) [
    | inr (e, bad) ↦ (e, rw bad)
    | inl (k, fine) ↦ elim (Result-cases (checked_record_length (1 + 4 + k))) [
      | inr (e, bad) ↦ (e, rw (fine, bad))
      | inl (n, fine') ↦ (
        codes "failed to write WAL primitive",
        rw (fine, fine', write_primitive_bad 4 n (codes "WAL primitive") c down),
      )
    ]
  ]

  -- On a stream that is not good the append of any operation throws, and changes neither the stream
  -- nor the disk.
  pub append_bad : (op : Op) → Refused c (append op c)
  append_bad (put key value) = append_set_bad key value
  append_bad (remove key) = append_delete_bad key

checked_size-ok : (bytes name : Bytes) (n : ℕ) → checked_size bytes name ≡ ok n → n ≡ length bytes
unfolding checked_size
checked_size-ok bytes name n h = ground arith

-- The append of an operation whose record is larger than the limit throws, and changes neither the
-- stream nor the disk.
pub append_large :
    (op : Op) (c : Channel) → max_record_length < length (payload op) → Refused c (append op c)
unfolding append_set append_delete
append_large (put key value) c large = elim (Result-cases (checked_size key (codes "WAL key"))) [
  | inr (e, bad) ↦ (e, rw bad)
  | inl (k, fine) ↦ elim (Result-cases (checked_size value (codes "WAL value"))) [
    | inr (e, bad) ↦ (e, rw (fine, bad))
    | inl (v, fine') ↦
        let total : max_record_length < 1 + 4 + k + 4 + v = omega (
          arith,
          length-payload-put key value,
          checked_size-ok key (codes "WAL key") k fine,
          checked_size-ok value (codes "WAL value") v fine',
        ) in
        (
          codes "WAL record is too large",
          rw (fine, fine', checked_record_length-large (1 + 4 + k + 4 + v) total),
        )
  ]
]
append_large (remove key) c large = elim (Result-cases (checked_size key (codes "WAL key"))) [
  | inr (e, bad) ↦ (e, rw bad)
  | inl (k, fine) ↦
      let total : max_record_length < 1 + 4 + k =
        omega (arith, length-payload-remove key, checked_size-ok key (codes "WAL key") k fine) in
      (codes "WAL record is too large", rw (fine, checked_record_length-large (1 + 4 + k) total))
]
