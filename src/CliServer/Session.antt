-- ===== src/CliServer/Session.antt =====
-- What a session at the prompt does to the store is a sequence of requests; without a command that
-- clears the persistence the store stays durable.
use agent_kv.Prelude.{
  ℕ, Bytes, List, [], ◌∷◌, ◌++◌, All, true, false, ◌≡◌, ◌≢◌, refl, sym, ap, ◌∙◌, if◌then◌else◌,
  Bool-cases, inl, inr,
}
use agent_kv.Snapshot.{temp_path, LoadResult}
use agent_kv.Exec.{ok}
use agent_kv.Map.{Map}
use agent_kv.CliParser
use agent_kv.CliParser.{Command, CommandType, is_valid}
use agent_kv.KvStore.{World, KvStore, recover}
use agent_kv.KvStore.Durable.{IsDurable}
use agent_kv.KvStore.Recovery.{IsRecovered}
use agent_kv.KvStore.Sessions.{
  Request, set_entry, delete_entry, serve, serve_all, recover-serve_all,
}
use agent_kv.CliServer.{execute, execute_valid, run}
use agent_kv.CliServer.Spec.{goes_on}

-- The requests of a command.
abbrev asked : CommandType → Command → List Request
asked CommandType.set command = set_entry command.key command.value ∷ []
asked CommandType.del command = delete_entry command.key ∷ []
asked _ command = []

-- The requests of the lines up to the first EXIT.
abbrev pub requests : List Bytes → List Request
requests [] = []
requests (line ∷ lines) =
    let command = CliParser.parse line in
    let more = requests lines in
    asked command.type command ++ (if goes_on command.type then more else [])

-- Not a command that clears the log and the snapshot.
abbrev pub KeepsDisk : Bytes → Type 0
KeepsDisk line = (CliParser.parse line).type ≢ CommandType.clear_persistence

execute-requests :
    (command : Command) (s : World)
    → command.type ≢ CommandType.clear_persistence
    → ((execute command s).1 ≡ serve_all (asked command.type command) s)
      × ((execute command s).0.1 ≡ goes_on command.type)
unfolding execute execute_valid is_valid serve_all serve
execute-requests command s keeps = by_type command.type command refl keeps
  where
    by_type :
        (type : CommandType) (command : Command)
        → command.type ≡ type
        → type ≢ CommandType.clear_persistence
        → ((execute command s).1 ≡ serve_all (asked type command) s)
          × ((execute command s).0.1 ≡ goes_on type)
    by_type CommandType.invalid command e keeps = rw e (refl, refl)
    by_type CommandType.set command e keeps = rw e (refl, refl)
    by_type CommandType.get command e keeps = rw e (refl, refl)
    by_type CommandType.del command e keeps = rw e (refl, refl)
    by_type CommandType.clear_persistence command e keeps = absurd (keeps refl)
    by_type CommandType.help command e keeps = rw e (refl, refl)
    by_type CommandType.exit command e keeps = rw e (refl, refl)

serve_all-append :
    (ps qs : List Request) (s : World) → serve_all (ps ++ qs) s ≡ serve_all qs (serve_all ps s)
unfolding serve_all
serve_all-append [] qs s = refl
serve_all-append (p ∷ ps) qs s = serve_all-append ps qs (serve p s)

-- A session in which no line clears the persistence changes the store as its SETs and DELETEs do,
-- one after another, up to the first EXIT; lines that are not valid change nothing.
pub run-requests :
    (lines : List Bytes) (s : World)
    → All KeepsDisk lines
    → (run lines s).1 ≡ serve_all (requests lines) s
unfolding run serve_all
run-requests [] s _ = refl
run-requests (line ∷ lines) s (keeps, all) =
    let command : Command = CliParser.parse line in
    let (done, running) = execute-requests command s keeps in
    let first : List Request = asked command.type command in
    elim (Bool-cases (goes_on command.type)) [
      | inl more ↦
          let goes : (execute command s).0.1 ≡ true = running ∙ more in
          rw (goes, more)
            (run-requests lines (execute command s).1 all
              ∙ ap (serve_all (requests lines)) done
              ∙ sym (serve_all-append first (requests lines) s))
      | inr last ↦
          let stops : (execute command s).0.1 ≡ false = running ∙ last in
          rw (stops, last) (done ∙ sym (serve_all-append first [] s))
    ]

module _ {wal_path snapshot_path : Bytes} (apart : wal_path ≢ snapshot_path)
    (apart' : wal_path ≢ temp_path snapshot_path) where
  -- From a durable store, with the log at another path than the snapshot and its temporary file:
  -- whatever lines a user types, other than those that clear the persistence, and however the disk
  -- fails meanwhile: the recovery of `main` into a new empty store returns, and gives the map that the
  -- session ended with; or, only if the log's stream had failed and the log's file ends with the whole
  -- record of an operation, that map with this operation done to it.
  pub run-IsRecovered :
      (lines : List Bytes) (s : World) (k : KvStore)
      → All KeepsDisk lines
      → IsDurable wal_path snapshot_path s
      → k.entries ≡ []
      → (r : LoadResult × ℕ) × (m : Map) × (recover wal_path snapshot_path
            (record { store = k; disk = (run lines s).1.disk })
          ≡ (ok r, record { store = record k { entries = m }; disk = (run lines s).1.disk }))
        × IsRecovered wal_path (run lines s).1 m
  run-IsRecovered lines s k all b empty =
      rw (run-requests lines s all) (recover-serve_all apart apart' (requests lines) s k b empty)
