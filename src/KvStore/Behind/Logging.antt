-- ===== src/KvStore/Behind/Logging.antt =====
-- Logging an operation over whatever is behind a store.
use agent_kv.Prelude.{
  Bytes, ◌++◌, length, some, ltb, ltb→le, ltb→lt, ◌≡◌, ◌≢◌, inl, inr, refl, sym, subst, Bool-cases,
}
use agent_kv.Exec.{Result, ok, err}
use agent_kv.Map.{Map}
use agent_kv.Disk.{OutStream, Channel}
use agent_kv.Disk.Writes.{Holds, Wrote}
use agent_kv.Wal.{max_record_length}
use agent_kv.Wal.Append.{append, append-Wrote, append_bad, append_large}
use agent_kv.Wal.Frame.{Op, frame, payload, IsWritable}
use agent_kv.KvStore.{World, on_wal, when_wal}
use agent_kv.KvStore.Durable.{IsCheckpoint}
use agent_kv.KvStore.Logging.{after, when_wal-some, when_wal-Logged, Logged}
use agent_kv.KvStore.Behind.{Stored, kept, torn, unknown, op_on, Loose, Behind}

-- An append that returns was of a record that fits.
abbrev Fitting : Op → Result (Unit {0}) × World → Type 0
Fitting op (ok _, _) = IsWritable op
Fitting op (err _, _) = Unit

fitting : (op : Op) (r : Result (Unit {0}) × World) → IsWritable op → Fitting op r
fitting op (ok _, _) w = w
fitting op (err _, _) w = tt

when_wal-Fitting :
    (op : Op) (s : World) {log : OutStream}
    → s.store.wal ≡ some log
    → Fitting op (when_wal (append op) s)
unfolding on_wal
when_wal-Fitting op s {log} e =
    let c : Channel = record { output = log; disk = s.disk } in
    elim (Bool-cases (ltb max_record_length (length (payload op)))) [
      | inl large ↦
          let (message, eq) = append_large op c (ltb→lt _ _ large) in
          subst (Fitting op) (sym (when_wal-some (append op) s e))
            (subst (λ (r : Result (Unit {0}) × Channel). Fitting op (r.0, after s r.1)) (sym eq) tt)
      | inr fits ↦
          fitting op (when_wal (append op) s) (ltb→le max_record_length (length (payload op)) fits)
    ]

module _ (wal_path snapshot_path : Bytes) where
  -- The outcome of logging an operation.
  abbrev pub Logs : Op → Stored → World → Result (Unit {0}) × World → Type 0
  Logs op stored s (ok _, s') =
      IsWritable op
      × Behind wal_path snapshot_path (op_on op stored) s'
      × (s'.store.entries ≡ s.store.entries)
  Logs op stored s (err _, s') =
      Behind wal_path snapshot_path stored s' × (s'.store.entries ≡ s.store.entries)

module _ {wal_path snapshot_path : Bytes} (apart : wal_path ≢ snapshot_path) where
  kept-Logs :
      (op : Op) (n : Map) (s : World) (r : Result (Unit {0}) × World)
      → Fitting op r
      → Logged wal_path snapshot_path op n s r
      → Logs wal_path snapshot_path op (kept n) s r
  kept-Logs op n s (ok _, s') w (b, same) = (w, b, same)
  kept-Logs op n s (err _, s') _ h = h

  -- A loose store after an operation on the log.
  pub loosened :
      (s : World) (file : Bytes) (c : Channel)
      → Loose wal_path snapshot_path s
      → Holds wal_path file s.disk.files c
      → Loose wal_path snapshot_path (after s c)
  loosened s file c b h = record {
    log = c.output;
    file = file;
    offset = b.offset;
    base = b.base;
    wal = refl;
    snapshot = b.snapshot;
    target = h.target;
    holds = h.file;
    bound = h.bound;
    small = b.small;
    checkpoint =
        subst (λ f. IsCheckpoint f b.offset b.base) (sym (h.rest snapshot_path apart)) b.checkpoint;
  }

  module _ (s : World) (b : Loose wal_path snapshot_path s) where
    abbrev pub channel : Channel
    channel = record { output = b.log; disk = s.disk }

    pub channel-Holds : Holds wal_path b.file s.disk.files channel
    channel-Holds = record {
      target = b.target;
      file = b.holds;
      rest = λ q _. refl;
      bound = b.bound;
    }

    logged :
        (op : Op) (r : Result (Unit {0}) × Channel)
        → IsWritable op
        → Wrote wal_path b.file (frame op) s.disk.files r
        → Logs wal_path snapshot_path op unknown s (r.0, after s r.1)
    logged op (ok _, c) w (_, h) = (w, loosened s (b.file ++ frame op) c b h, refl)
    logged op (err _, c) w (_, written, _, _, h) = (loosened s (b.file ++ written) c b h, refl)

    refused :
        (op : Op)
        → (e : Bytes) × (append op channel ≡ (err e, channel))
        → Logs wal_path snapshot_path op unknown s (on_wal b.log (append op) s)
    unfolding on_wal
    refused op (e, eq) =
        subst (λ r. Logs wal_path snapshot_path op unknown s (r.0, after s r.1)) (sym eq)
          (loosened s b.file channel b channel-Holds, refl)

    Loose-Logs : (op : Op) → Logs wal_path snapshot_path op unknown s (when_wal (append op) s)
    unfolding on_wal
    Loose-Logs op =
        subst (Logs wal_path snapshot_path op unknown s) (sym (when_wal-some (append op) s b.wal))
          (elim (Bool-cases b.log.good) [
            | inr down ↦ refused op (append_bad _ down op)
            | inl up ↦ elim (Bool-cases (ltb max_record_length (length (payload op)))) [
              | inl large ↦ refused op (append_large op _ (ltb→lt _ _ large))
              | inr fits ↦
                  let w = ltb→le max_record_length (length (payload op)) fits in
                  logged op (append op channel) w (append-Wrote op channel up channel-Holds w)
            ]
          ])

  -- Logging an operation of any size, on a good stream or a failed one.
  pub when_wal-Logs :
      (op : Op) (stored : Stored) (s : World)
      → Behind wal_path snapshot_path stored s
      → Logs wal_path snapshot_path op stored s (when_wal (append op) s)
  when_wal-Logs op (kept n) s b =
      kept-Logs op n s (when_wal (append op) s) (when_wal-Fitting op s b.wal)
        (when_wal-Logged apart b op)
  when_wal-Logs op (torn n) s b = absurd b
  when_wal-Logs op unknown s b = Loose-Logs s b op
