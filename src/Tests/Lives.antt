-- ===== src/Tests/Lives.antt =====
-- The lives of a store over several processes, at concrete disks.
use agent_kv.Prelude.{
  bytes_eq, All, Bool, true, false, ap, ℕ, Bytes, codes, List, [], ◌∷◌, ◌++◌, none, ◌≡◌, refl,
  arith,
}
use agent_kv.Exec.{Result, ok, err}
use agent_kv.Map.{Map, insert}
use agent_kv.Disk.{Disk, contents}
use agent_kv.BinaryIo.{le_bytes}
use agent_kv.Snapshot.{LoadResult}
use agent_kv.Snapshot.Image.{image}
use agent_kv.Wal.Frame.{frame}
use agent_kv.Wal.Recovery.{frames, apply_ops}
use agent_kv.KvStore.{World, set, start}
use agent_kv.KvStore.Progress.{Fits, Returned}
use agent_kv.KvStore.Liveness.{OpRoom, HasRoom, ops_of, set-Returned, returned-Ready}
use agent_kv.KvStore.Restart.{start-Returned, restart-Returned}
use agent_kv.KvStore.Sessions.{IsSound, Request, set_entry, serve_all, serve_all-IsDurable}
use agent_kv.KvStore.Starting.{IsSound-new}
use agent_kv.KvStore.Life.{Event, down, set_ok, death, start_ok, Steps, Pair, History}
use agent_kv.KvStore.Recovery.{log_is_good}
use agent_kv.KvStore.Behind.{kept}
use agent_kv.KvStore.Between.{Keeps}
use agent_kv.KvStore.Survives.{life-History}
use agent_kv.KvStore.Repaired.{Restarted, start-Restarted}
use mathlib.Core.Bool.{false≢true}
use agent_kv.StringUtils.{trim, split_whitespace_view, to_upper, upper, is_space}
use agent_kv.Map.Table.{table}
use agent_kv.CliParser.{parse, dispatch, join_tokens, CommandType}
use agent_kv.CliServer.{run}
use agent_kv.CliServer.Spec.{transcript}
use agent_kv.CliServer.Session.{KeepsDisk}
use agent_kv.CliServer.Room
use agent_kv.CliServer.Calm.{Agree}
use agent_kv.CliServer.Reopened.{reopened-transcript}
use agent_kv.Tests.{log_path, dump_path, one_put}
use agent_kv.Tests.Stores.{apart, apart', live, live-IsDurable, after}
use agent_kv.Tests.Stores

abbrev new_disk : Disk
new_disk = record { files = λ _. none; fates = [] }

new_disk-IsSound : IsSound log_path dump_path [] new_disk
new_disk-IsSound = IsSound-new log_path dump_path new_disk refl refl

empty-Fits : Fits []
unfolding le_bytes image
empty-Fits = record { encodable = tt; few = omega arith; room = λ n. omega arith }

one_put-OpRoom : OpRoom [] [] one_put
unfolding le_bytes insert image
one_put-OpRoom = record {
  writable = omega arith;
  log = omega arith;
  fits = record {
    encodable = (omega arith, omega arith, tt);
    few = omega arith;
    room = λ n. omega arith;
  };
}

abbrev writes : List Request
writes = set_entry (codes "k") (codes "v") ∷ []

writes-HasRoom : HasRoom (contents new_disk log_path) [] (ops_of writes)
unfolding ops_of
writes-HasRoom = (one_put-OpRoom, tt)

restart-Returned_example :
    Returned apart apart'
      (contents new_disk log_path ++ frames (ops_of writes))
      (apply_ops (ops_of writes) [])
      (start log_path dump_path (serve_all writes (start log_path dump_path new_disk).1).disk)
restart-Returned_example =
    restart-Returned apart apart' new_disk writes new_disk-IsSound refl empty-Fits writes-HasRoom

returned :
    {A : Type 0} (file : Bytes) (entries : Map) (r : Result A × World)
    → Returned apart apart' file entries r
    → (a : A) × (r ≡ (ok a, r.1))
returned file entries (ok a, s) _ = (a, refl)
returned file entries (err _, s) absent = absurd absent

abbrev first : Result (LoadResult × ℕ) × World
first = start log_path dump_path new_disk

first-Returned : Returned apart apart' [] [] first
first-Returned = start-Returned apart apart' new_disk new_disk-IsSound refl

abbrev second : Result (Unit {0}) × World
second = set (codes "k") (codes "v") first.1

second-Returned : Returned apart apart' (frame one_put) (insert (codes "k") (codes "v") []) second
second-Returned =
    set-Returned apart apart' (codes "k") (codes "v") first.1 one_put-OpRoom
      (returned-Ready apart apart' [] [] first first-Returned)

abbrev dead_disk : Disk
dead_disk = record second.1.disk { fates = [] }

steps :
    Steps log_path dump_path
      (Event.started
        ∷ Event.set_returned (codes "k") (codes "v")
        ∷ Event.died (log_is_good second.1)
        ∷ [])
      (down new_disk)
      (down dead_disk)
steps =
    let (_, started) = returned [] [] first first-Returned in
    let (_, changed) = returned _ _ second second-Returned in
    let ready = returned-Ready apart apart' _ _ second second-Returned in
    Steps.then (start_ok started) (Steps.then (set_ok changed) (Steps.then (death []) Steps.rest))

life-History_example :
    (q : Pair) × History
      (Event.started
        ∷ Event.set_returned (codes "k") (codes "v")
        ∷ Event.died (log_is_good second.1)
        ∷ [])
      (record { memory = []; stored = kept [] })
      q
    × Keeps log_path dump_path (down dead_disk) q
life-History_example = life-History apart apart' new_disk refl refl steps

start-Restarted_example :
    Restarted apart apart' after (start log_path dump_path (record after.disk { fates = [] }))
start-Restarted_example =
    start-Restarted apart apart' after
      (serve_all-IsDurable apart apart' Stores.asked live live-IsDurable) []

abbrev first_lines : List Bytes
first_lines = codes "SET k v" ∷ codes "exit" ∷ []

abbrev second_lines : List Bytes
second_lines = codes "GET k" ∷ []

abbrev clears : CommandType → Bool
clears CommandType.clear_persistence = true
clears _ = false

first_lines-KeepsDisk : All KeepsDisk first_lines
unfolding parse dispatch trim split_whitespace_view to_upper upper is_space bytes_eq
first_lines-KeepsDisk = (λ e. false≢true (ap clears e), (λ e. false≢true (ap clears e), tt))

first_lines-HasRoom : Room.HasRoom [] [] first_lines
unfolding parse dispatch trim split_whitespace_view to_upper upper is_space join_tokens bytes_eq
    le_bytes image insert
first_lines-HasRoom = (one_put-OpRoom, λ _. (tt, λ stops. absurd (false≢true stops)))

second_lines-HasRoom : (file : Bytes) (m : Map) → Room.HasRoom file m second_lines
unfolding parse dispatch trim split_whitespace_view to_upper upper is_space bytes_eq
second_lines-HasRoom file m = (tt, λ _. tt)

reopened-transcript_example :
    Agree
      (run second_lines
        (start log_path dump_path (run first_lines (start log_path dump_path new_disk).1).1.disk).1)
      (transcript second_lines (transcript first_lines (table [] tt)).1)
reopened-transcript_example =
    reopened-transcript apart apart' new_disk tt first_lines second_lines new_disk-IsSound refl
      empty-Fits first_lines-KeepsDisk first_lines-HasRoom (second_lines-HasRoom _ _)
