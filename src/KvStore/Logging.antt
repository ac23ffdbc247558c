-- ===== src/KvStore/Logging.antt =====
-- An append through the store keeps the disk in step with the map, whole or failing.
use agent_kv.Prelude.{
  ◌≤◌, Bytes, [], ◌∷◌, ◌++◌, length, All-append, Option, none, some, true, false, ◌≡◌, ◌≢◌, inl,
  inr, refl, sym, ap, subst, ◌∙◌, append-nil, append_assoc, Bool-cases, ltb, ltb→le, ltb→lt,
}
use agent_kv.Exec.{Result, ok, err, Exec}
use agent_kv.Map.{Map}
use agent_kv.Disk.{OutStream, Channel, max_offset}
use agent_kv.Disk.Writes.{Holds, Wrote}
use agent_kv.Wal.{max_record_length}
use agent_kv.Wal.Append.{append, append-Wrote, append_bad, append_large}
use agent_kv.Wal.Frame.{Op, apply_op, frame, payload, IsWritable}
use agent_kv.Wal.Recovery.{frames, frames-append}
use agent_kv.KvStore.{World, on_wal, when_wal}
use agent_kv.KvStore.Content.{apply_ops-append}
use agent_kv.KvStore.Durable.{IsCheckpoint, IsTail, Backed, Backed-same, Backed-Holds}

-- The world after an operation of the log has left `c`.
abbrev pub after : World → Channel → World
after s c = record { store = record s.store { wal = some c.output }; disk = c.disk }

pub when_wal-some :
    (m : Exec Channel (Unit {0})) (s : World) {log : OutStream}
    → s.store.wal ≡ some log
    → when_wal m s ≡ on_wal log m s
unfolding when_wal
when_wal-some m s e =
    ap (λ (o : Option OutStream). elim o [ none ↦ (ok tt, s) | some w ↦ on_wal w m s ]) e

-- The outcome of logging an operation.
abbrev pub Logged : Bytes → Bytes → Op → Map → World → Result (Unit {0}) × World → Type 0
Logged wal_path snapshot_path op entries s (ok _, s') =
    Backed wal_path snapshot_path (apply_op op entries) s' × (s'.store.entries ≡ s.store.entries)
Logged wal_path snapshot_path op entries s (err _, s') =
    Backed wal_path snapshot_path entries s' × (s'.store.entries ≡ s.store.entries)

module _ {wal_path snapshot_path : Bytes} (apart : wal_path ≢ snapshot_path) {entries : Map}
    {s : World} (b : Backed wal_path snapshot_path entries s) where
  old : Bytes
  old = b.before ++ (frames b.ops ++ b.tail)

  -- A failed append leaves a front of the frame behind the log.
  torn :
      (op : Op) (c : Channel) (written missing : Bytes)
      → IsWritable op
      → b.tail ≡ []
      → c.output.good ≡ false
      → written ++ missing ≡ frame op
      → Holds wal_path ((b.before ++ (frames b.ops ++ b.tail)) ++ written) s.disk.files c
      → Backed wal_path snapshot_path entries (after s c)
  torn op c written missing w clean down joined h =
      let seam : (b.before ++ (frames b.ops ++ b.tail)) ++ written
          ≡ b.before ++ (frames b.ops ++ written) =
        rw (clean, append-nil (frames b.ops), append_assoc) in
      record {
        log = c.output;
        base = b.base;
        before = b.before;
        ops = b.ops;
        tail = written;
        wal = refl;
        snapshot = b.snapshot;
        target = h.target;
        file = h.file ∙ ap some seam;
        bound = subst (λ f. length f ≤ max_offset) seam h.bound;
        checkpoint =
            subst (λ f. IsCheckpoint f (length b.before) b.base) (sym (h.rest snapshot_path apart))
              b.checkpoint;
        writable = b.writable;
        ending = subst (λ g. IsTail g written) (sym down) (op, w, missing, joined);
        rebuilt = b.rebuilt;
      }

  logged :
      (op : Op) (c : Channel)
      → IsWritable op
      → b.tail ≡ []
      → c.output.good ≡ true
      → Holds wal_path ((b.before ++ (frames b.ops ++ b.tail)) ++ frame op) s.disk.files c
      → Backed wal_path snapshot_path (apply_op op entries) (after s c)
  logged op c w clean up h =
      let seam : (b.before ++ (frames b.ops ++ b.tail)) ++ frame op
          ≡ b.before ++ (frames (b.ops ++ (op ∷ [])) ++ []) =
        rw (
          clean,
          append-nil (frames b.ops),
          append_assoc,
          frames-append b.ops op,
          append-nil (frames b.ops ++ frame op),
        ) in
      record {
        log = c.output;
        base = b.base;
        before = b.before;
        ops = b.ops ++ (op ∷ []);
        tail = [];
        wal = refl;
        snapshot = b.snapshot;
        target = h.target;
        file = h.file ∙ ap some seam;
        bound = subst (λ f. length f ≤ max_offset) seam h.bound;
        checkpoint =
            subst (λ f. IsCheckpoint f (length b.before) b.base) (sym (h.rest snapshot_path apart))
              b.checkpoint;
        writable = All-append IsWritable b.ops (op ∷ []) b.writable (w, tt);
        ending = subst (λ g. IsTail g []) (sym up) refl;
        rebuilt = ap (apply_op op) b.rebuilt ∙ sym (apply_ops-append b.ops op b.base);
      }

  outcome :
      (op : Op) (r : Result (Unit {0}) × Channel)
      → IsWritable op
      → b.tail ≡ []
      → Wrote wal_path (b.before ++ (frames b.ops ++ b.tail)) (frame op) s.disk.files r
      → Logged wal_path snapshot_path op entries s (r.0, after s r.1)
  outcome op (ok u, c) w clean (up, h) = (logged op c w clean up h, refl)
  outcome op (err e, c) w clean (down, written, missing, joined, h) =
      (torn op c written missing w clean down joined h, refl)

  refused :
      (op : Op)
      → (e : Bytes) × (append op (record { output = b.log; disk = s.disk })
          ≡ (err e, record { output = b.log; disk = s.disk }))
      → Logged wal_path snapshot_path op entries s (on_wal b.log (append op) s)
  unfolding on_wal
  refused op (e, eq) =
      subst (λ r. Logged wal_path snapshot_path op entries s (r.0, after s r.1)) (sym eq)
        (
          Backed-same b (after s (record { output = b.log; disk = s.disk })) (sym b.wal) refl refl,
          refl,
        )

  -- Logging an operation of any size, on a good stream or a failed one.
  pub when_wal-Logged :
      (op : Op) → Logged wal_path snapshot_path op entries s (when_wal (append op) s)
  unfolding on_wal
  when_wal-Logged op =
      subst (Logged wal_path snapshot_path op entries s) (sym (when_wal-some (append op) s b.wal))
        (elim (Bool-cases b.log.good) [
          | inr down ↦ refused op (append_bad _ down op)
          | inl up ↦ elim (Bool-cases (ltb max_record_length (length (payload op)))) [
            | inl large ↦ refused op (append_large op _ (ltb→lt _ _ large))
            | inr fits ↦
                let w = ltb→le max_record_length (length (payload op)) fits in
                let clean : b.tail ≡ [] = subst (λ g. IsTail g b.tail) up b.ending in
                outcome op (append op (record { output = b.log; disk = s.disk })) w clean
                  (append-Wrote op (record { output = b.log; disk = s.disk }) up (Backed-Holds b) w)
          ]
        ])
