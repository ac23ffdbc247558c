-- ===== src/CliServer/Refines.antt =====
-- Whatever is typed and however the disk fails, a session prints and keeps what the dictionary of
-- CliServer/Spec.antt does.
use agent_kv.Prelude.{
  Bytes, codes, List, [], ◌∷◌, ◌++◌, Bool, true, false, ◌≡◌, inl, inr, refl, sym, ap, subst,
  if◌then◌else◌,
}
use mathlib.Core.Quot
use agent_kv.Exec.{Result, ok, err}
use agent_kv.Map.{Map, lookup, IsMap}
use agent_kv.Map.Laws.{insert-IsMap, erase-IsMap}
use agent_kv.Map.Table.{table, find, put_entry, drop_entry}
use agent_kv.Wal.Frame.{put, remove}
use agent_kv.CliParser
use agent_kv.CliParser.{Command, CommandType, is_valid}
use agent_kv.KvStore
use agent_kv.KvStore.{World, set, delete, clear_persistence, is_there}
use agent_kv.KvStore.Entries.{Applied, Has, set-Applied}
use agent_kv.KvStore.Effects.{Replied, delete-Replied, clear_persistence-Has}
use agent_kv.CliServer.{execute, execute_valid, run, newline, reply, prompt}
use agent_kv.CliServer.Spec.{
  Answer, carried_out, refused_after, refused_before, Transcript, at_end, stopped, went_on,
}

pub table-eq : (m n : Map) (i : IsMap m) (j : IsMap n) → m ≡ n → table m i ≡ table n j
table-eq m n i j e = Quot.sound (λ key. ap (lookup key) e)

-- The command's case of the `switch`, or the message of one that is not valid.
unfoldable pub executed : CommandType → Command → World → (Bytes × Bool) × World
unfolding execute_valid
executed CommandType.invalid command s =
    ((codes "ERR " ++ (command.error_message ++ newline), true), s)
executed type command s = execute_valid type command s

pub execute-executed :
    (command : Command) (s : World) → execute command s ≡ executed command.type command s
unfolding execute is_valid executed
execute-executed command s = by_type command.type refl
  where
    by_type :
        (type : CommandType) → command.type ≡ type → execute command s ≡ executed type command s
    by_type CommandType.invalid e = rw e refl
    by_type CommandType.set e = rw e refl
    by_type CommandType.get e = rw e refl
    by_type CommandType.del e = rw e refl
    by_type CommandType.clear_persistence e = rw e refl
    by_type CommandType.help e = rw e refl
    by_type CommandType.exit e = rw e refl

-- The command was answered as the table of these entries answers it, and the world holds the table
-- after it.
abbrev Answers : CommandType → Command → (m : Map) → IsMap m → (Bytes × Bool) × World → Type 0
Answers type command m i ((text, running), s) =
    (i' : IsMap s.store.entries) × Answer type command (table m i) text running
      (table s.store.entries i')

module _ (command : Command) (m : Map) (i : IsMap m) where
  leaves :
      (type : CommandType) (text : Bytes) (running : Bool) (n : Map) (j : IsMap n) (s : World)
      → s.store.entries ≡ n
      → Answer type command (table m i) text running (table n j)
      → Answers type command m i ((text, running), s)
  leaves type text running n j s e a =
      let i' = subst IsMap (sym e) j in
      (
        i',
        subst (Answer type command (table m i) text running)
            (table-eq n s.store.entries j i' (sym e)) a,
      )

  set-Answers :
      (r : Result (Unit {0}) × World)
      → Applied (put command.key command.value) m r
      → Answers CommandType.set command m i ((reply (λ _. codes "OK\n") r.0, true), r.1)
  unfolding put_entry
  set-Answers (ok _, s) e =
      leaves CommandType.set _ true _ (insert-IsMap command.key command.value m i) s e carried_out
  set-Answers (err what, s) (inl e) =
      leaves CommandType.set _ true _ (insert-IsMap command.key command.value m i) s e
        (refused_after what refl)
  set-Answers (err what, s) (inr e) =
      leaves CommandType.set _ true m i s e (refused_before what refl)

  delete-Answers :
      (r : Result Bool × World)
      → Replied (is_there (lookup command.key m)) (remove command.key) m r
      → Answers CommandType.del command m i
          ((reply (λ erased. (if erased then codes "1" else codes "0") ++ newline) r.0, true), r.1)
  unfolding drop_entry find
  delete-Answers (ok b, s) (b', e) =
      rw b' (leaves CommandType.del _ true _ (erase-IsMap command.key m i) s e carried_out)
  delete-Answers (err what, s) (inl e) =
      leaves CommandType.del _ true _ (erase-IsMap command.key m i) s e (refused_after what refl)
  delete-Answers (err what, s) (inr e) =
      leaves CommandType.del _ true m i s e (refused_before what refl)

  clear-Answers :
      (r : Result (Unit {0}) × World)
      → Has m r
      → Answers CommandType.clear_persistence command m i
          ((reply (λ _. codes "OK persistence cleared\n") r.0, true), r.1)
  clear-Answers (ok _, s) e = leaves CommandType.clear_persistence _ true m i s e carried_out
  clear-Answers (err what, s) e =
      leaves CommandType.clear_persistence _ true m i s e (refused_before what refl)

executed-Answers :
    (type : CommandType) (command : Command) (s : World) (i : IsMap s.store.entries)
    → Answers type command s.store.entries i (executed type command s)
unfolding executed execute_valid find KvStore.get
executed-Answers CommandType.invalid command s i = (i, carried_out)
executed-Answers CommandType.set command s i =
    set-Answers command s.store.entries i (set command.key command.value s)
      (set-Applied command.key command.value s)
executed-Answers CommandType.get command s i = (i, carried_out)
executed-Answers CommandType.del command s i =
    delete-Answers command s.store.entries i (delete command.key s) (delete-Replied command.key s)
executed-Answers CommandType.clear_persistence command s i =
    clear-Answers command s.store.entries i (clear_persistence s) (clear_persistence-Has s)
executed-Answers CommandType.help command s i = (i, carried_out)
executed-Answers CommandType.exit command s i = (i, carried_out)

execute-Answers :
    (command : Command) (s : World) (i : IsMap s.store.entries)
    → Answers command.type command s.store.entries i (execute command s)
execute-Answers command s i =
    subst (Answers command.type command s.store.entries i) (sym (execute-executed command s))
      (executed-Answers command.type command s i)

-- What a session printed and left is a transcript.
abbrev pub Recorded : List Bytes → (m : Map) → IsMap m → Bytes × World → Type 0
Recorded lines m i (text, s) =
    (i' : IsMap s.store.entries) × Transcript lines (table m i) text (table s.store.entries i')

-- From a store whose map has distinct keys, with or without a log and a snapshot, over any disk and
-- any failures of it: what a session prints for any lines, and the map that it leaves, are those of a
-- dictionary that carries each command out or, if it is a SET, a DELETE or a CLEAR PERSISTENCE,
-- refuses it with an error, its change made or not.
pub run-Transcript :
    (lines : List Bytes) (s : World) (i : IsMap s.store.entries)
    → Recorded lines s.store.entries i (run lines s)
unfolding run
run-Transcript [] s i = (i, at_end)
run-Transcript (line ∷ lines) s i =
    went (execute (CliParser.parse line) s) (execute-Answers (CliParser.parse line) s i)
      (λ s' i'. run-Transcript lines s' i')
  where
    went :
        (r : (Bytes × Bool) × World)
        → Answers (CliParser.parse line).type (CliParser.parse line) s.store.entries i r
        → ((s' : World) (i' : IsMap s'.store.entries)
            → Recorded lines s'.store.entries i' (run lines s'))
        → Recorded (line ∷ lines) s.store.entries i (
            if r.0.1
            then (prompt ++ (r.0.0 ++ (run lines r.1).0), (run lines r.1).1)
            else (prompt ++ r.0.0, r.1))
    went ((text, true), s') (i', a) later = let (j, rest) = later s' i' in (j, went_on a rest)
    went ((text, false), s') (i', a) later = (i', stopped a)
