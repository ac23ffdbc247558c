-- ===== src/Wal/Replay.antt =====
-- The replay loop: it ends on every input, undoes what the appends wrote, drops a torn tail, and
-- passes over malformed records.
use agent_kv.Prelude.{
  ℕ, zero, suc, ◌+◌, ◌<◌, ◌≤◌, ◌%◌, ◌^◌, Bytes, [], ◌++◌, length, length-append, Option, none, some,
  ◌≡◌, arith, ltb, ltb-false, if◌then◌else◌, append_assoc, append-nil, ap, sym, ◌∙◌, refl, ◌≢◌, inl,
  inr, Option-cases, Bool-cases, ltb→le, append-eq-nil, none-ne-some, some_pair,
}
use agent_kv.Map.{Map}
use agent_kv.BinaryIo.{read_primitive, read_bytes}
use agent_kv.BinaryIo.Codec.{
  sized, read_primitive-le_bytes, read_bytes-append, read_primitive-eq-some, read_bytes-eq-some,
  read_primitive-append, read_bytes-append_more,
}
use agent_kv.Wal.{max_record_length, apply_record, next_record, replay_loop}

next_record_shrinks_at :
    (input behind bytes rest : Bytes) (size : ℕ)
    → read_primitive 4 input ≡ some (size, behind)
    → (if ltb max_record_length size then none else read_bytes size behind) ≡ some (bytes, rest)
    → (length input ≡ 4 + length bytes + length rest) × (length bytes ≤ max_record_length)
next_record_shrinks_at input behind bytes rest size read h =
    elim (Bool-cases (ltb max_record_length size)) [
      | inl large ↦ absurd (none-ne-some (rw large at h))
      | inr fits ↦
          let (size_eq, joined) = read_bytes-eq-some size behind (rw fits at h) in
          (
            omega (
              arith,
              read_primitive-eq-some 4 input read,
              length-append bytes rest,
              ap length joined,
            ),
            omega (arith, ltb→le _ _ fits, size_eq),
          )
    ]

-- A record takes its length field and its bytes off the input.
pub next_record_shrinks :
    (input bytes rest : Bytes)
    → next_record input ≡ some (bytes, rest)
    → (length input ≡ 4 + length bytes + length rest) × (length bytes ≤ max_record_length)
unfolding next_record
next_record_shrinks input bytes rest h = elim (Option-cases (read_primitive 4 input)) [
  | inl short ↦ absurd (none-ne-some (rw short at h))
  | inr ((size, behind), read) ↦
      next_record_shrinks_at input behind bytes rest size read (rw read at h)
]

pub next_record-sized :
    (bytes rest : Bytes)
    → length bytes ≤ max_record_length
    → next_record (sized bytes ++ rest) ≡ some (bytes, rest)
unfolding next_record
next_record-sized bytes rest small =
    rw
      (
        append_assoc,
        read_primitive-le_bytes 4 (length bytes) (bytes ++ rest) (omega arith),
        ltb-false max_record_length (length bytes) small,
      )
      (read_bytes-append (length bytes) bytes rest refl)

next_record-append_at :
    (input behind more bytes rest : Bytes) (size : ℕ)
    → read_primitive 4 input ≡ some (size, behind)
    → (if ltb max_record_length size then none else read_bytes size behind) ≡ some (bytes, rest)
    → next_record (input ++ more) ≡ some (bytes, rest ++ more)
unfolding next_record
next_record-append_at input behind more bytes rest size read h =
    elim (Bool-cases (ltb max_record_length size)) [
      | inl large ↦ absurd (none-ne-some (rw large at h))
      | inr fits ↦
          rw (read_primitive-append 4 input more read, fits)
            (read_bytes-append_more size behind more (rw fits at h))
    ]

-- A record that is complete stays the next record when the file grows.
pub next_record-append :
    (input more bytes rest : Bytes)
    → next_record input ≡ some (bytes, rest)
    → next_record (input ++ more) ≡ some (bytes, rest ++ more)
unfolding next_record
next_record-append input more bytes rest h = elim (Option-cases (read_primitive 4 input)) [
  | inl short ↦ absurd (none-ne-some (rw short at h))
  | inr ((size, behind), read) ↦
      next_record-append_at input behind more bytes rest size read (rw read at h)
]

-- A front of a framed record that lacks some bytes is no record: the replay loop stops there. The
-- record is of at most the largest length.
pub next_record_torn :
    (torn missing bytes : Bytes)
    → length bytes ≤ max_record_length
    → torn ++ missing ≡ sized bytes
    → missing ≢ []
    → next_record torn ≡ none
next_record_torn torn missing bytes small joined some_missing =
    elim (Option-cases (next_record torn)) [
      | inl stop ↦ stop
      | inr ((found, rest), next) ↦
          let grown = next_record-append torn missing found rest next in
          let whole = next_record-sized bytes [] small in
          let e : ◌≡◌ {A = Option (Bytes × Bytes)} (some (found, rest ++ missing))
              (some (bytes, [])) =
            sym grown ∙ ap next_record (joined ∙ sym (append-nil (sized bytes))) ∙ whole in
          absurd (some_missing (append-eq-nil rest missing (some_pair e).1))
    ]

-- One round of the loop: it breaks, passes over a record, or applies one.
module _ (fuel : ℕ) (input : Bytes) (recovered : ℕ) (store : Map) where
  pub replay_loop_break :
      next_record input ≡ none
      → replay_loop (suc fuel) input recovered store ≡ some (recovered, store)
  unfolding replay_loop
  replay_loop_break stop = rw (stop, replay_loop)

  module _ {bytes rest : Bytes} (next : next_record input ≡ some (bytes, rest)) where
    pub replay_loop_skip :
        apply_record bytes store ≡ none
        → replay_loop (suc fuel) input recovered store ≡ replay_loop fuel rest recovered store
    unfolding replay_loop
    replay_loop_skip skip = rw (next, replay_loop) (rw (skip, replay_loop))

    pub replay_loop_apply :
        {store' : Map}
        → apply_record bytes store ≡ some store'
        → replay_loop (suc fuel) input recovered store
          ≡ replay_loop fuel rest ((recovered + 1) % 2 ^ 64) store'
    unfolding replay_loop
    replay_loop_apply done = rw (next, replay_loop) (rw (done, replay_loop))

-- With more fuel than the input has bytes the replay loop ends by its own break, on any input, and
-- returns a count and a map.
pub replay_loop_total :
    (fuel : ℕ) (input : Bytes) (recovered : ℕ) (store : Map)
    → length input < fuel
    → (r : ℕ × Map) × (replay_loop fuel input recovered store ≡ some r)
replay_loop_total zero input recovered store h = absurd (omega arith)
replay_loop_total (suc fuel) input recovered store h = elim (Option-cases (next_record input)) [
  | inl stop ↦ ((recovered, store), replay_loop_break fuel input recovered store stop)
  | inr ((bytes, rest), next) ↦
      let less : length rest < fuel = omega (arith, next_record_shrinks input bytes rest next) in
      elim (Option-cases (apply_record bytes store)) [
        | inl skip ↦
            rw (replay_loop_skip fuel input recovered store next skip)
              (replay_loop_total fuel rest recovered store less)
        | inr (store', done) ↦
            rw (replay_loop_apply fuel input recovered store next done)
              (replay_loop_total fuel rest ((recovered + 1) % 2 ^ 64) store' less)
      ]
]

-- Any fuel above the input's length gives the same result.
pub replay_loop_fuel :
    (f g : ℕ) (input : Bytes) (recovered : ℕ) (store : Map)
    → length input < f
    → length input < g
    → replay_loop f input recovered store ≡ replay_loop g input recovered store
replay_loop_fuel zero g input recovered store h k = absurd (omega arith)
replay_loop_fuel (suc f) zero input recovered store h k = absurd (omega arith)
replay_loop_fuel (suc f) (suc g) input recovered store h k =
    elim (Option-cases (next_record input)) [
      | inl stop ↦
          replay_loop_break f input recovered store stop
          ∙ sym (replay_loop_break g input recovered store stop)
      | inr ((bytes, rest), next) ↦
          let shorter = next_record_shrinks input bytes rest next in
          elim (Option-cases (apply_record bytes store)) [
            | inl skip ↦
                replay_loop_skip f input recovered store next skip
                ∙ replay_loop_fuel f g rest recovered store (omega arith) (omega arith)
                ∙ sym (replay_loop_skip g input recovered store next skip)
            | inr (store', done) ↦
                replay_loop_apply f input recovered store next done
                ∙ replay_loop_fuel f g rest ((recovered + 1) % 2 ^ 64) store' (omega arith)
                    (omega arith)
                ∙ sym (replay_loop_apply g input recovered store next done)
          ]
    ]
