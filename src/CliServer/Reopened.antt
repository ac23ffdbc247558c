-- ===== src/CliServer/Reopened.antt =====
-- Two sessions, one behind the other: the second finds what the first stored.
use agent_kv.Prelude.{
  Bytes, List, [], ◌∷◌, ◌++◌, All, Bool, true, false, ◌≡◌, ◌≢◌, refl, sym, ap, subst, ◌∙◌,
  if◌then◌else◌,
}
use agent_kv.Map.{Map, IsMap}
use agent_kv.Map.Table.{table}
use agent_kv.Disk.{Disk, contents, or_empty}
use agent_kv.Disk.Progress.{IsCalm}
use agent_kv.Snapshot.{temp_path}
use agent_kv.CliParser
use agent_kv.CliParser.{Command}
use agent_kv.KvStore.{World, start}
use agent_kv.KvStore.Durable.{IsDurable}
use agent_kv.KvStore.Good.{Backed-IsSound}
use agent_kv.KvStore.Progress.{Ready, Fits}
use agent_kv.KvStore.Liveness.{returned-Ready}
use agent_kv.KvStore.Restart.{start-Returned, start-IsDurable}
use agent_kv.KvStore.Sessions.{IsSound, serve_all-IsDurable}
use agent_kv.CliServer.{execute, run, prompt}
use agent_kv.CliServer.Spec.{said, goes_on, transcript}
use agent_kv.CliServer.Session.{KeepsDisk, requests, run-requests}
use agent_kv.CliServer.Refines.{table-eq}
use agent_kv.CliServer.Room.{file_after, map_after, HasRoom, map_after-IsMap, map_after-Fits}
use agent_kv.CliServer.Calm.{Agree, execute-Answered, run-transcript}

-- The log's file and the map that the lines leave.
unfoldable pub left_by : List Bytes → Bytes × Map → Bytes × Map
left_by [] x = x
left_by (line ∷ lines) (file, m) =
    let command = CliParser.parse line in
    let x : Bytes × Map =
      (file_after command.type command file, map_after command.type command m) in
    let last = left_by lines x in if goes_on command.type then last else x

-- The world after a line and the lines behind it.
abbrev world_after : Bytes × Bool → Bytes × World → World → Bytes × World
world_after answer more s =
    if answer.1 then (prompt ++ (answer.0 ++ more.0), more.1) else (prompt ++ answer.0, s)

module _ {wal_path snapshot_path : Bytes} (apart : wal_path ≢ snapshot_path)
    (apart' : wal_path ≢ temp_path snapshot_path) where
  abbrev Open : Bytes × Map → World → Type 0
  Open x s = Ready wal_path snapshot_path x.0 x.1 s × Fits x.1 × IsMap x.1

  last_of :
      (answer : Bytes × Bool) (more : Bytes × World) (s : World) (text : Bytes) (running : Bool)
      (x y : Bytes × Map)
      → answer ≡ (text, running)
      → (running ≡ true → Open y more.1)
      → Open x s
      → Open (if running then y else x) (world_after answer more s).1
  last_of answer more s text true x y e later stays =
      subst (λ (a : Bytes × Bool). Open y (world_after a more s).1) (sym e) (later refl)
  last_of answer more s text false x y e later stays =
      subst (λ (a : Bytes × Bool). Open x (world_after a more s).1) (sym e) stays

  run-Open :
      (lines : List Bytes) (file : Bytes) (m : Map) (s : World)
      → HasRoom file m lines
      → Open (file, m) s
      → Open (left_by lines (file, m)) (run lines s).1
  unfolding run left_by
  run-Open [] file m s room o = o
  run-Open (line ∷ lines) file m s (room, later) (r, f, i) =
      let command : Command = CliParser.parse line in
      let (a, ready) = execute-Answered apart apart' command i s room r in
      let s' : World = (execute command s).1 in
      let x : Bytes × Map =
        (file_after command.type command file, map_after command.type command m) in
      let o : Open x s' = (
        ready,
        map_after-Fits command.type command file m room f,
        map_after-IsMap command.type command m i,
      ) in
      last_of (execute command s).0 (run lines s') s' (said command.type command (table m i))
        (goes_on command.type) x (left_by lines x) a
        (λ more. run-Open lines x.0 x.1 s' (later more) o) o

  -- Over an orderly disk where no call is to fail, with the log at another path than the snapshot and
  -- its temporary file, from entries with distinct keys that a snapshot can hold, and with room for
  -- every line: `main` starts, a session runs in which no line clears the persistence, `main` starts
  -- again, and a second session prints what a dictionary prints
  -- that goes on from what the first session left.
  pub reopened-transcript :
      {m : Map} (d : Disk) (i : IsMap m) (lines lines' : List Bytes)
      → IsSound wal_path snapshot_path m d
      → IsCalm d
      → Fits m
      → All KeepsDisk lines
      → HasRoom (contents d wal_path) m lines
      → HasRoom
          (left_by lines (contents d wal_path, m)).0
          (left_by lines (contents d wal_path, m)).1
          lines'
      → Agree
          (run lines'
            (start wal_path snapshot_path (run lines (start wal_path snapshot_path d).1).1.disk).1)
          (transcript lines' (transcript lines (table m i)).1)
  reopened-transcript {m} d i lines lines' sound calm fits keeps room room' =
      let first = start-Returned apart apart' d sound calm in
      let s : World = (start wal_path snapshot_path d).1 in
      let ready = returned-Ready apart apart' _ _ (start wal_path snapshot_path d) first in
      let s' : World = (run lines s).1 in
      let x : Bytes × Map = left_by lines (contents d wal_path, m) in
      let (ready', fits', i') = run-Open lines (contents d wal_path) m s room (ready, fits, i) in
      let durable : IsDurable wal_path snapshot_path s' =
        subst (IsDurable wal_path snapshot_path) (sym (run-requests lines s keeps)) (
          serve_all-IsDurable apart apart' (requests lines) s
            (start-IsDurable apart apart' d sound calm)) in
      let sound' : IsSound wal_path snapshot_path x.1 s'.disk =
        subst (λ n. IsSound wal_path snapshot_path n s'.disk) ready'.map
          (Backed-IsSound durable (ready'.log, ready'.wal, ready'.good)) in
      let second = start-Returned apart apart' s'.disk sound' ready'.calm in
      let s'' : World = (start wal_path snapshot_path s'.disk).1 in
      let ready'' =
        subst (λ file. Ready wal_path snapshot_path file x.1 s'') (ap or_empty ready'.holds)
          (returned-Ready apart apart' _ _ (start wal_path snapshot_path s'.disk) second) in
      let (_, j, left) = run-transcript apart apart' lines i s room fits ready in
      subst (λ t. Agree (run lines' s'') (transcript lines' t))
        (table-eq x.1 s'.store.entries i' j (sym ready'.map) ∙ left)
        (run-transcript apart apart' lines' i' s'' room' fits' ready'')
