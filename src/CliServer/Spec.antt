-- ===== src/CliServer/Spec.antt =====
-- What a session at the prompt promises: a dictionary that answers commands, with no log, no snapshot
-- and no order of its entries; a command that writes may be refused.
use agent_kv.Prelude.{Bytes, codes, List, [], ◌∷◌, ◌++◌, Bool, true, false, if◌then◌else◌, ◌≡◌}
use agent_kv.Map.Table.{Table, find, put_entry, drop_entry}
use agent_kv.KvStore.{is_there}
use agent_kv.CliParser
use agent_kv.CliParser.{Command, CommandType}
use agent_kv.CliServer.{newline, prompt, shown, help_text}

abbrev pub said : CommandType → Command → Table → Bytes
said CommandType.set command t = codes "OK\n"
said CommandType.get command t = shown (find command.key t) ++ newline
said CommandType.del command t =
    (if is_there (find command.key t) then codes "1" else codes "0") ++ newline
said CommandType.clear_persistence command t = codes "OK persistence cleared\n"
said CommandType.help command t = help_text
said CommandType.exit command t = codes "Bye\n"
said CommandType.invalid command t = codes "ERR " ++ (command.error_message ++ newline)

abbrev pub changed_by : CommandType → Command → Table → Table
changed_by CommandType.set command t = put_entry command.key command.value t
changed_by CommandType.del command t = drop_entry command.key t
changed_by _ command t = t

abbrev pub goes_on : CommandType → Bool
goes_on CommandType.exit = false
goes_on _ = true

-- The commands that reach the disk.
abbrev pub is_write : CommandType → Bool
is_write CommandType.set = true
is_write CommandType.del = true
is_write CommandType.clear_persistence = true
is_write _ = false

-- The answer to a command, whether the session goes on, and the table after it: the command is
-- carried out; or it is a write and refused, with its change made or not.
pub data Answer (type : CommandType) (command : Command) (t : Table)
    : Bytes → Bool → Table → Type 0 where
  carried_out :
      Answer type command t (said type command t) (goes_on type) (changed_by type command t)
  refused_after :
      (what : Bytes)
      → is_write type ≡ true
      → Answer type command t (codes "ERR " ++ (what ++ newline)) true (changed_by type command t)
  refused_before :
      (what : Bytes)
      → is_write type ≡ true
      → Answer type command t (codes "ERR " ++ (what ++ newline)) true t

abbrev pub LineAnswer : Bytes → Table → Bytes → Bool → Table → Type 0
LineAnswer line = Answer (CliParser.parse line).type (CliParser.parse line)

-- The sessions over these lines from a table: what is printed, and the table left.
pub data Transcript : List Bytes → Table → Bytes → Table → Type 0 where
  at_end : {t : Table} → Transcript [] t (prompt ++ newline) t
  stopped :
      {line : Bytes} {lines : List Bytes} {t u : Table} {text : Bytes}
      → LineAnswer line t text false u
      → Transcript (line ∷ lines) t (prompt ++ text) u
  went_on :
      {line : Bytes} {lines : List Bytes} {t u v : Table} {text more : Bytes}
      → LineAnswer line t text true u
      → Transcript lines u more v
      → Transcript (line ∷ lines) t (prompt ++ (text ++ more)) v

-- The session in which every command is carried out.
unfoldable pub transcript : List Bytes → Table → Bytes × Table
transcript [] t = (prompt ++ newline, t)
transcript (line ∷ lines) t =
    let command = CliParser.parse line in
    let text = said command.type command t in
    let u = changed_by command.type command t in
    let (more, v) = transcript lines u in
    if goes_on command.type then (prompt ++ (text ++ more), v) else (prompt ++ text, u)
