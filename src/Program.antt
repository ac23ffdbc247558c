-- ===== src/Program.antt =====
-- src/main.cpp, main: recovery with its messages, then the JSON mode or the prompt. The parser and the
-- dump of nlohmann::json are parameters, and either may throw. An exception that leaves main ends the
-- process.
pub mod Phases
use agent_kv.Prelude.{
  ℕ, Bytes, bytes_eq, codes, List, [], ◌∷◌, ◌++◌, Option, none, some, Bool, true, false, ◌||◌,
  if◌then◌else◌,
}
use agent_kv.Exec.{Result, ok, err, Exec, pure, lift, ◌>>=◌, ◌>>◌}
use agent_kv.Disk.{Disk, OutStream}
use agent_kv.Wal
use agent_kv.Snapshot.{LoadResult}
use agent_kv.KvStore.{World, fresh_store, load_snapshot, replay_from_wal}
use agent_kv.CliServer.{run}
use agent_kv.Json.{JsonLib, Parsed}
use agent_kv.Json.Mode.{Response, json_mode}
use agent_kv.Bench.Decimal.{to_string}

-- The default paths of the two constructors.
abbrev pub wal_path : Bytes
wal_path = codes "kv_store.wal"

abbrev pub snapshot_path : Bytes
snapshot_path = codes "kv_store.snapshot"

-- The loop over the arguments behind the program's name.
unfoldable pub is_json_mode : List Bytes → Bool
is_json_mode [] = false
is_json_mode (argument ∷ arguments) = bytes_eq argument (codes "--json") || is_json_mode arguments

-- The store, its disk, and what was printed.
pub record Process : Type 0 where
  pub world : World
  pub output : Bytes

unfoldable pub on_world : {A : Type 0} → Exec World A → Exec Process A
on_world m p = let (r, w) = m p.world in (r, record p { world = w })

-- `if (!json_mode) std::cout << …`
unfoldable pub announce : Bool → Bytes → Exec Process (Unit {0})
announce quiet text p = (ok tt, if quiet then p else record p { output = p.output ++ text })

-- The constructors.
unfoldable pub opened : Process → Result OutStream × Disk → Result (Unit {0}) × Process
opened p (ok log, d) =
    (ok tt, record p { world = record { store = fresh_store log snapshot_path; disk = d } })
opened p (err message, d) = (
  err message,
  record p {
    world = record {
      store = record { entries = []; wal = none; snapshot = none; writes_since_snapshot = 0 };
      disk = d;
    };
  },
)

unfoldable pub construct : Exec Process (Unit {0})
construct p = opened p (Wal.open_log wal_path p.world.disk)

unfoldable pub recovery : Bool → Exec Process (Unit {0})
recovery quiet = do
  announce quiet (codes "Loading snapshot...\n")
  result ← on_world (load_snapshot snapshot_path)
  announce quiet (
      codes "Loaded "
      ++ (to_string result.entry_count ++ codes " snapshot entrie(s)\nReplaying WAL...\n"))
  recovered ← on_world (replay_from_wal wal_path result.wal_offset)
  announce quiet (codes "Recovered " ++ (to_string recovered ++ codes " operation(s)\n"))

-- The prompt, over the lines of the input.
unfoldable pub serve : List Bytes → Exec Process ℕ
serve lines p =
    let (text, w) = run lines p.world in (ok 0, record { world = w; output = p.output ++ text })

module _ {Json : Type 0} (lib : JsonLib Json) (parse : Bytes → Parsed Json)
    (dump : Response → Result Bytes) where
  unfoldable pub answer_json : List Bytes → Exec Process ℕ
  answer_json lines = do
    (response, status) ← lift (json_mode lib parse lines)
    text ← lift (dump response)
    announce false (text ++ codes "\n")
    pure status

  unfoldable pub respond : Bool → List Bytes → Exec Process ℕ
  respond true lines = answer_json lines
  respond false lines = serve lines

  -- The exit status, or the exception that ends the process.
  unfoldable pub main : List Bytes → List Bytes → Exec Process ℕ
  main arguments lines = do
    construct
    recovery (is_json_mode arguments)
    respond (is_json_mode arguments) lines
