-- ===== src/Tests/Programs.antt =====
-- The theorem on main, over an empty disk: the prompt, and the JSON mode.
use agent_kv.Prelude.{Bytes, codes, [], ◌∷◌, none, inl, refl, arith}
use agent_kv.Exec.{Result, ok, err}
use agent_kv.Json.Mode.{Response, accepted, parse_error, validation_error}
use agent_kv.Program.{Process, wal_path, snapshot_path, is_json_mode, main}
use agent_kv.Program.Phases.{Served, main-Served}
use agent_kv.KvStore.Sessions.{IsSound}
use agent_kv.Tests.Requests.{docs, parse_any}

-- A dump that throws for a message that it can not write.
abbrev dumped : Response → Result Bytes
dumped accepted = ok (codes "{}")
dumped (parse_error message) = err (codes "not UTF-8")
dumped (validation_error message) = ok message

abbrev booting : Process
booting = record {
  world = record {
    store = record { entries = []; wal = none; snapshot = none; writes_since_snapshot = 0 };
    disk = record { files = λ _. none; fates = [] };
  };
  output = [];
}

booting-IsSound : IsSound wal_path snapshot_path [] booting.world.disk
booting-IsSound = record {
  base = [];
  before = [];
  ops = [];
  file = refl;
  bound = omega arith;
  checkpoint = inl (refl, refl, refl);
  writable = tt;
  rebuilt = refl;
}

-- Both ways to run the program.
main-Served_example :
    Served docs parse_any dumped
      (is_json_mode [])
      (codes "SET a b" ∷ [])
      []
      (main docs parse_any dumped [] (codes "SET a b" ∷ []) booting)
    × Served docs parse_any dumped
        (is_json_mode (codes "--json" ∷ []))
        (codes "{}" ∷ [])
        []
        (main docs parse_any dumped (codes "--json" ∷ []) (codes "{}" ∷ []) booting)
main-Served_example = (
  main-Served docs parse_any dumped [] (codes "SET a b" ∷ []) [] booting booting-IsSound,
  main-Served docs parse_any dumped (codes "--json" ∷ []) (codes "{}" ∷ []) [] booting
      booting-IsSound,
)
