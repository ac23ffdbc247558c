-- ===== src/Program/Phases.antt =====
-- What main does to the store, whatever it prints.
use agent_kv.Prelude.{
  ℕ, Bytes, List, [], Bool, true, false, bytes_eq, differ, codes, ◌++◌, ◌≡◌, ◌≢◌, ◌⊎◌, inl, inr,
  refl, ap, sym, subst, ◌∙◌,
}
use agent_kv.Exec.{Result, ok, err, pure, lift, ◌>>=◌, ◌>>◌, continue}
use agent_kv.Disk.{Disk, OutStream}
use agent_kv.Wal
use agent_kv.Snapshot.{LoadResult}
use agent_kv.Map.{Map}
use agent_kv.KvStore.Durable.{IsDurable}
use agent_kv.KvStore.Sessions.{IsSound, Started, start-Started}
use agent_kv.KvStore.{World, fresh_store, load_snapshot, replay_from_wal, recover, start, started}
use agent_kv.CliServer.{run}
use agent_kv.Json.{JsonLib, Parsed, parsed, malformed, refused}
use agent_kv.Json.Mode.{Response, raw_input, json_mode}
use agent_kv.Json.Mode.Outcome.{Exits, json_mode-Exits}
use agent_kv.Program.{
  Process, wal_path, snapshot_path, is_json_mode, on_world, announce, opened, construct, recovery,
  serve, answer_json, respond, main,
}

apart : wal_path ≢ snapshot_path
unfolding bytes_eq
apart = differ wal_path snapshot_path refl

-- A call of the program that does to the store what a call of the store does.
abbrev Follows : {A B : Type 0} → Result A × World → Result B × Process → Type 0
Follows (ok _, w) (ok _, p) = p.world ≡ w
Follows (err e, w) (err e', p) = (e' ≡ e) × (p.world ≡ w)
Follows (ok _, w) (err _, p) = ⊥
Follows (err _, w) (ok _, p) = ⊥

-- The messages change nothing that the store can see.
replayed :
    (quiet : Bool) (text : ℕ → Bytes) (result : LoadResult) (r : Result ℕ × World) (p : Process)
    → Follows {A = LoadResult × ℕ}
        (continue r.0 (λ n. pure (result, n)) r.1)
        (continue r.0 (λ n. announce quiet (text n)) (record p { world = r.1 }))
unfolding announce
replayed true text result (ok n, w) p = refl
replayed false text result (ok n, w) p = refl
replayed quiet text result (err e, w) p = (refl, refl)

loaded :
    (quiet : Bool) (more : LoadResult → Bytes) (text : ℕ → Bytes) (r : Result LoadResult × World)
    (p : Process)
    → Follows {A = LoadResult × ℕ}
        (continue r.0
          (λ result. replay_from_wal wal_path result.wal_offset >>= λ n. pure (result, n))
          r.1)
        (continue r.0
          (λ result.
            announce quiet (more result)
            >> (on_world (replay_from_wal wal_path result.wal_offset) >>= λ n.
                announce quiet (text n)))
          (record p { world = r.1 }))
unfolding announce on_world
loaded true more text (ok result, w) p =
    replayed true text result (replay_from_wal wal_path result.wal_offset w) p
loaded false more text (ok result, w) p =
    replayed false text result (replay_from_wal wal_path result.wal_offset w)
      (record p { output = p.output ++ more result })
loaded quiet more text (err e, w) p = (refl, refl)

recovery-Follows :
    (quiet : Bool) (p : Process)
    → Follows (recover wal_path snapshot_path p.world) (recovery quiet p)
unfolding recover recovery announce on_world
recovery-Follows true p = loaded true (λ _. []) (λ _. []) (load_snapshot snapshot_path p.world) p
recovery-Follows false p =
    loaded false _ _ (load_snapshot snapshot_path p.world)
      (record p { output = p.output ++ codes "Loading snapshot...\n" })

-- Only an exception of the parser leaves the JSON mode.
Exits-err :
    {Json : Type 0} (lib : JsonLib Json) (p : Parsed Json) (what : Bytes)
    → Exits lib p (err what)
    → p ≡ refused what
Exits-err lib (parsed request) what (inl (_, e)) = absurd (cc (e))
Exits-err lib (parsed request) what (inr (_, e)) = absurd (cc (e))
Exits-err lib (malformed text) what e = absurd (cc (e))
Exits-err lib (refused text) what e = cc (e)

module _ {Json : Type 0} (lib : JsonLib Json) (parse : Bytes → Parsed Json)
    (dump : Response → Result Bytes) where
  -- What main does behind a start that ended in `w`: the JSON mode prints the answer to the request
  -- and leaves the store alone, the prompt runs over the store.
  abbrev pub Answered : Bool → List Bytes → World → ℕ → Process → Type 0
  Answered true lines w status p =
      (response : Response) × (text : Bytes) × (before : Bytes) × (json_mode lib parse lines
        ≡ ok (response, status))
      × (dump response ≡ ok text)
      × (p.output ≡ before ++ (text ++ codes "\n"))
      × (p.world ≡ w)
  Answered false lines w status p = (status ≡ 0) × (p.world ≡ (run lines w).1)

  -- What leaves main behind the start: in the JSON mode the exception of the parser that is not a
  -- `parse_error`, or the exception of the dump of the answer.
  abbrev pub Escaped : Bool → List Bytes → Bytes → Type 0
  Escaped true lines e =
      (parse (raw_input lines) ≡ refused e)
      ⊎ ((response : Response) × (status : ℕ) × (json_mode lib parse lines ≡ ok (response, status))
          × (dump response ≡ err e))
  Escaped false lines e = ⊥

  -- The end of main, for the end of a start.
  abbrev Ended : {A : Type 0} → Bool → List Bytes → Result A × World → Result ℕ × Process → Type 0
  Ended json lines (ok _, w) (ok status, p) = Answered json lines w status p
  Ended json lines (err e, w) (err e', p) = (e' ≡ e) × (p.world ≡ w)
  Ended json lines (ok _, w) (err e, p) = Escaped json lines e × (p.world ≡ w)
  Ended json lines (err _, w) (ok _, p) = ⊥

  dumped :
      (lines : List Bytes) (w : World) (p : Process) (answer : Response × ℕ)
      → json_mode lib parse lines ≡ ok answer
      → p.world ≡ w
      → (r : Result Bytes) → dump answer.0 ≡ r
      → Ended {A = Unit {0}} true lines
          (ok tt, w)
          (continue r (λ text. announce false (text ++ codes "\n") >> pure answer.1) p)
  unfolding announce
  dumped lines w p (response, status) e same (ok text) d =
      (response, text, p.output, e, d, refl, same)
  dumped lines w p (response, status) e same (err what) d = (inr (response, status, e, d), same)

  answered :
      (lines : List Bytes) (w : World) (p : Process) (r : Result (Response × ℕ))
      → json_mode lib parse lines ≡ r
      → Exits lib (parse (raw_input lines)) r
      → p.world ≡ w
      → Ended {A = Unit {0}} true lines
          (ok tt, w)
          (continue r
            (λ (answer : Response × ℕ).
              lift (dump answer.0) >>= λ text. announce false (text ++ codes "\n") >> pure answer.1)
            p)
  answered lines w p (ok answer) e _ same = dumped lines w p answer e same (dump answer.0) refl
  answered lines w p (err what) e exits same = (inl (Exits-err lib _ what exits), same)

  respond-Ended :
      {A B : Type 0} (json : Bool) (lines : List Bytes) (r : Result A × World)
      (q : Result B × Process)
      → Follows r q
      → Ended json lines r (continue q.0 (λ _. respond lib parse dump json lines) q.1)
  unfolding respond answer_json serve
  respond-Ended true lines (ok a, w) (ok b, p) same =
      answered lines w p (json_mode lib parse lines) refl (json_mode-Exits lib parse lines) same
  respond-Ended false lines (ok a, w) (ok b, p) same = (refl, ap (λ v. (run lines v).1) same)
  respond-Ended json lines (err e, w) (err e', p) both = both
  respond-Ended json lines (ok a, w) (err e', p) none_such = absurd none_such
  respond-Ended json lines (err e, w) (ok b, p) none_such = absurd none_such

  constructed :
      (json : Bool) (lines : List Bytes) (p : Process) (r : Result OutStream × Disk)
      → Ended json lines (started wal_path snapshot_path r) (
          continue
            (opened p r).0
            (λ _. recovery json >> respond lib parse dump json lines)
            (opened p r).1)
  unfolding started opened
  constructed json lines p (ok log, d) =
      let q : Process = record p {
        world = record { store = fresh_store log snapshot_path; disk = d };
      } in
      respond-Ended json lines (recover wal_path snapshot_path q.world) (recovery json q)
        (recovery-Follows json q)
  constructed json lines p (err message, d) = (refl, refl)

  main-Ended :
      (arguments lines : List Bytes) (p : Process)
      → Ended
          (is_json_mode arguments)
          lines
          (start wal_path snapshot_path p.world.disk)
          (main lib parse dump arguments lines p)
  unfolding main construct start
  main-Ended arguments lines p =
      constructed (is_json_mode arguments) lines p (Wal.open_log wal_path p.world.disk)

  -- The end of main over a disk that holds these entries.
  abbrev pub Served : Bool → List Bytes → Map → Result ℕ × Process → Type 0
  Served json lines entries (ok status, p) =
      (w : World) × (w.store.entries ≡ entries)
      × IsDurable wal_path snapshot_path w
      × Answered json lines w status p
  Served json lines entries (err e, p) =
      (e ≡ codes "failed to open WAL file: " ++ wal_path)
      ⊎ (Escaped json lines e
          × (p.world.store.entries ≡ entries)
          × IsDurable wal_path snapshot_path p.world)

  served :
      (json : Bool) (lines : List Bytes) (entries : Map) (r : Result (LoadResult × ℕ) × World)
      (q : Result ℕ × Process)
      → Started wal_path snapshot_path entries r
      → Ended json lines r q
      → Served json lines entries q
  served json lines entries (ok a, w) (ok status, p) (same, durable) answer =
      (w, same, durable, answer)
  served json lines entries (err e, w) (err e', p) (_, message) (e_same, _) = inl (e_same ∙ message)
  served json lines entries (ok a, w) (err e', p) (same, durable) (escaped, kept) =
      let (same', durable') =
        subst (λ (v : World). (v.store.entries ≡ entries) × IsDurable wal_path snapshot_path v)
          (sym kept) (same, durable) in
      inr (escaped, same', durable')
  served json lines entries (err e, w) (ok status, p) _ none_such = absurd none_such

  -- Over a disk that a process left in order, with any failures of the disk from then on: main ends
  -- with an exception only if the log can not be opened, or if in the JSON mode the parser throws
  -- another exception than a `parse_error` or the dump of the answer throws, and then the process holds
  -- a durable store of the entries of the disk. Otherwise it recovers a durable store of these entries;
  -- in the JSON mode it leaves that store alone, prints the dump of the answer to the request last and
  -- ends with the answer's status, and else it runs the prompt over that store and ends with 0.
  pub main-Served :
      (arguments lines : List Bytes) (entries : Map) (p : Process)
      → IsSound wal_path snapshot_path entries p.world.disk
      → Served (is_json_mode arguments) lines entries (main lib parse dump arguments lines p)
  main-Served arguments lines entries p sound =
      served (is_json_mode arguments) lines entries (start wal_path snapshot_path p.world.disk)
        (main lib parse dump arguments lines p) (start-Started apart sound)
        (main-Ended arguments lines p)
