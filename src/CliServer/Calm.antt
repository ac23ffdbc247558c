-- ===== src/CliServer/Calm.antt =====
-- When no call is to fail and there is room, a session is the one in which every command is carried
-- out.
use agent_kv.Prelude.{
  Bytes, codes, List, [], ◌∷◌, ◌++◌, Bool, true, false, ◌≡◌, ◌≢◌, refl, sym, ap, subst, ◌∙◌,
  if◌then◌else◌,
}
use agent_kv.Exec.{Result, ok, err}
use agent_kv.Map.{Map, lookup, erase, IsMap}
use agent_kv.Map.Table.{Table, table, find}
use agent_kv.Snapshot.{temp_path}
use agent_kv.Wal.Frame.{remove}
use agent_kv.CliParser
use agent_kv.CliParser.{Command, CommandType}
use agent_kv.KvStore
use agent_kv.KvStore.{World, set, delete, clear_persistence, is_there}
use agent_kv.KvStore.Progress.{Ready, Fits, Returned}
use agent_kv.KvStore.Liveness.{set-Returned, delete-Returned}
use agent_kv.KvStore.Effects.{Replied, delete-Replied}
use agent_kv.KvStore.Emptying.{clear_persistence-Returned}
use agent_kv.CliServer.{execute, execute_valid, run, newline, reply, prompt}
use agent_kv.CliServer.Spec.{said, changed_by, goes_on, transcript}
use agent_kv.CliServer.Room.{
  file_after, map_after, CommandRoom, HasRoom, map_after-IsMap, table-map_after, map_after-Fits,
}
use agent_kv.CliServer.Refines.{executed, execute-executed, table-eq}

-- The text printed is the same, and the world holds the table.
abbrev pub Agree : Bytes × World → Bytes × Table → Type 0
Agree r t = (r.0 ≡ t.0) × (i : IsMap r.1.store.entries) × (table r.1.store.entries i ≡ t.1)

module _ {wal_path snapshot_path : Bytes} (apart : wal_path ≢ snapshot_path)
    (apart' : wal_path ≢ temp_path snapshot_path) where
  -- The answer is what the table says, and the store is ready for the next command.
  abbrev pub Answered :
      CommandType → Command → Bytes → (m : Map) → IsMap m → (Bytes × Bool) × World → Type 0
  Answered type command file m i (answer, s) =
      (answer ≡ (said type command (table m i), goes_on type))
      × Ready wal_path snapshot_path (file_after type command file) (map_after type command m) s

  acknowledged :
      (text file : Bytes) (m : Map) (r : Result (Unit {0}) × World)
      → Returned apart apart' file m r
      → (◌≡◌ {A = Bytes × Bool} (reply (λ _. text) r.0, true) (text, true))
        × Ready wal_path snapshot_path file m r.1
  acknowledged text file m (ok _, s) ready = (refl, ready)
  acknowledged text file m (err _, s) ready = absurd ready

  counted :
      (key file : Bytes) (m n : Map) (r : Result Bool × World)
      → Replied (is_there (lookup key n)) (remove key) n r
      → n ≡ m
      → Returned apart apart' file (erase key m) r
      → (◌≡◌ {A = Bytes × Bool}
          (reply (λ erased. (if erased then codes "1" else codes "0") ++ newline) r.0, true)
          ((if is_there (lookup key m) then codes "1" else codes "0") ++ newline, true))
        × Ready wal_path snapshot_path file (erase key m) r.1
  counted key file m n (ok b, s) (b', _) e ready = (
    ap (λ x. ((if x then codes "1" else codes "0") ++ newline, true))
        (b' ∙ ap (λ x. is_there (lookup key x)) e),
    ready,
  )
  counted key file m n (err _, s) _ e ready = absurd ready

  executed-Answered :
      (type : CommandType) (command : Command) {file : Bytes} {m : Map} (i : IsMap m) (s : World)
      → CommandRoom type command file m
      → Ready wal_path snapshot_path file m s
      → Answered type command file m i (executed type command s)
  unfolding executed execute_valid find KvStore.get
  executed-Answered CommandType.set command i s room r =
      acknowledged (codes "OK\n") _ _ (set command.key command.value s)
        (set-Returned apart apart' command.key command.value s room r)
  executed-Answered CommandType.del command {file} {m} i s room r =
      counted command.key _ m s.store.entries (delete command.key s) (delete-Replied command.key s)
        r.map (delete-Returned apart apart' command.key s room r)
  executed-Answered CommandType.clear_persistence command i s room r =
      acknowledged (codes "OK persistence cleared\n") _ _ (clear_persistence s)
        (clear_persistence-Returned apart apart' s r)
  executed-Answered CommandType.get command i s room r = (rw r.map refl, r)
  executed-Answered CommandType.invalid command i s room r = (refl, r)
  executed-Answered CommandType.help command i s room r = (refl, r)
  executed-Answered CommandType.exit command i s room r = (refl, r)

  pub execute-Answered :
      (command : Command) {file : Bytes} {m : Map} (i : IsMap m) (s : World)
      → CommandRoom command.type command file m
      → Ready wal_path snapshot_path file m s
      → Answered command.type command file m i (execute command s)
  execute-Answered command {file} {m} i s room r =
      subst (Answered command.type command file m i) (sym (execute-executed command s))
        (executed-Answered command.type command i s room r)

  followed :
      (answer : Bytes × Bool) (s : World) (more : Bytes × World) (text : Bytes) (running : Bool)
      (more' : Bytes × Table) (t : Table)
      → answer ≡ (text, running)
      → (running ≡ true → Agree more more')
      → (i : IsMap s.store.entries) × (table s.store.entries i ≡ t)
      → Agree
          (if answer.1 then (prompt ++ (answer.0 ++ more.0), more.1) else (prompt ++ answer.0, s))
          (if running then (prompt ++ (text ++ more'.0), more'.1) else (prompt ++ text, t))
  followed answer s more text true more' t e later stays =
      let (texts, i, left) = later refl in
      subst
        (λ (a : Bytes × Bool).
          Agree (if a.1 then (prompt ++ (a.0 ++ more.0), more.1) else (prompt ++ a.0, s))
            (prompt ++ (text ++ more'.0), more'.1))
        (sym e) (ap (λ b. prompt ++ (text ++ b)) texts, i, left)
  followed answer s more text false more' t e later stays =
      subst
        (λ (a : Bytes × Bool).
          Agree (if a.1 then (prompt ++ (a.0 ++ more.0), more.1) else (prompt ++ a.0, s))
            (prompt ++ text, t))
        (sym e) (refl, stays.0, stays.1)

  -- On a disk where no call is to fail, with the log at another path than the snapshot and its
  -- temporary file, from a good log and a map with distinct keys that a snapshot can hold, with room
  -- for each SET and DELETE in its turn: a session prints, for any lines, what a dictionary prints
  -- that carries out every command, and leaves the dictionary's map.
  pub run-transcript :
      (lines : List Bytes) {file : Bytes} {m : Map} (i : IsMap m) (s : World)
      → HasRoom file m lines
      → Fits m
      → Ready wal_path snapshot_path file m s
      → Agree (run lines s) (transcript lines (table m i))
  unfolding run transcript
  run-transcript [] {file} {m} i s room f r =
      let i' = subst IsMap (sym r.map) i in (refl, i', table-eq s.store.entries m i' i r.map)
  run-transcript (line ∷ lines) {file} {m} i s (room, later) f r =
      let command : Command = CliParser.parse line in
      let (a, ready) = execute-Answered command i s room r in
      let m' : Map = map_after command.type command m in
      let i' : IsMap m' = map_after-IsMap command.type command m i in
      let s' : World = (execute command s).1 in
      let same = table-map_after command.type command m i in
      let j : IsMap s'.store.entries = subst IsMap (sym ready.map) i' in
      followed (execute command s).0 s' (run lines s') (said command.type command (table m i))
        (goes_on command.type) (transcript lines (changed_by command.type command (table m i)))
        (changed_by command.type command (table m i)) a
        (λ more.
          subst (λ t. Agree (run lines s') (transcript lines t)) same
            (run-transcript lines i' s' (later more)
              (map_after-Fits command.type command file m room f) ready))
        (j, table-eq s'.store.entries m' j i' ready.map ∙ same)
