-- ===== src/CliServer.antt =====
-- src/server/cli_server.cpp, class CliServer: commands executed against the store, and the loop over
-- the lines of the input. What is written to the output is the returned text.
pub mod Session
pub mod Spec
pub mod Refines
pub mod Room
pub mod Calm
pub mod Reopened
use agent_kv.Prelude.{
  Bytes, codes, List, [], ◌∷◌, ◌++◌, Option, none, some, Bool, true, false, if◌then◌else◌,
}
use agent_kv.Exec.{Result, ok, err}
use agent_kv.CliParser
use agent_kv.CliParser.{Command, CommandType, is_valid}
use agent_kv.KvStore
use agent_kv.KvStore.{World}

abbrev pub newline : Bytes
newline = codes "\n"

unfoldable pub help_text : Bytes
help_text =
    codes "Commands:\n"
    ++ (codes "  SET <key> <value>\n"
        ++ (codes "  GET <key>\n"
            ++ (codes "  DEL|DELETE <key>\n"
                ++ (codes "  CLEAR PERSISTENCE\n" ++ (codes "  HELP\n" ++ codes "  EXIT\n")))))

-- `value.has_value() ? *value : "(nil)"`
abbrev pub shown : Option Bytes → Bytes
shown none = codes "(nil)"
shown (some value) = value

-- What a call of the store writes, or the handler of `std::exception`.
abbrev pub reply {ℓ} : {A : Type ℓ} → (A → Bytes) → Result A → Bytes
reply f (ok a) = f a
reply f (err what) = codes "ERR " ++ (what ++ newline)

-- The `switch`: the text written, the flag `running` after it, and the store.
execute_valid : CommandType → Command → World → (Bytes × Bool) × World
execute_valid CommandType.set command s =
    let (r, s') = KvStore.set command.key command.value s in
    ((reply (λ _. codes "OK\n") r, true), s')
execute_valid CommandType.get command s = ((shown (KvStore.get command.key s) ++ newline, true), s)
execute_valid CommandType.del command s =
    let (r, s') = KvStore.delete command.key s in
    ((reply (λ erased. (if erased then codes "1" else codes "0") ++ newline) r, true), s')
execute_valid CommandType.clear_persistence command s =
    let (r, s') = KvStore.clear_persistence s in
    ((reply (λ _. codes "OK persistence cleared\n") r, true), s')
execute_valid CommandType.help command s = ((help_text, true), s)
execute_valid CommandType.exit command s = ((codes "Bye\n", false), s)
execute_valid CommandType.invalid command s = ((codes "ERR invalid command\n", true), s)

unfoldable pub execute : Command → World → (Bytes × Bool) × World
unfolding execute_valid
execute command s =
    if is_valid command
    then execute_valid command.type command s
    else ((codes "ERR " ++ (command.error_message ++ newline), true), s)

abbrev pub prompt : Bytes
prompt = codes "kv-store> "

-- The loop, over the lines that `std::getline` still yields; at the end of input a line break.
unfoldable pub run : List Bytes → World → Bytes × World
run [] s = (prompt ++ newline, s)
run (line ∷ lines) s =
    let ((text, running), s') = execute (CliParser.parse line) s in
    let (more, s'') = run lines s' in
    if running then (prompt ++ (text ++ more), s'') else (prompt ++ text, s')
