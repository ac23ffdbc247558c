-- ===== src/CliServer/Room.antt =====
-- The room that the lines of a session need, and the map that each of them leaves.
use agent_kv.Prelude.{Bytes, List, [], ◌∷◌, ◌++◌, true, ◌≡◌, refl}
use agent_kv.Map.{Map, insert, erase, IsMap}
use agent_kv.Map.Laws.{insert-IsMap, erase-IsMap}
use agent_kv.Map.Table.{table, put_entry, drop_entry}
use agent_kv.Wal.Frame.{put, remove, frame}
use agent_kv.CliParser
use agent_kv.CliParser.{Command, CommandType}
use agent_kv.KvStore.Progress.{Fits}
use agent_kv.KvStore.Liveness.{OpRoom}
use agent_kv.CliServer.Spec.{changed_by, goes_on}

-- The log's file and the map after a command.
abbrev pub file_after : CommandType → Command → Bytes → Bytes
file_after CommandType.set command file = file ++ frame (put command.key command.value)
file_after CommandType.del command file = file ++ frame (remove command.key)
file_after CommandType.clear_persistence command file = []
file_after _ command file = file

abbrev pub map_after : CommandType → Command → Map → Map
map_after CommandType.set command m = insert command.key command.value m
map_after CommandType.del command m = erase command.key m
map_after _ command m = m

-- The log has room for the command, and a snapshot for the map after it.
abbrev pub CommandRoom : CommandType → Command → Bytes → Map → Type 0
CommandRoom CommandType.set command file m = OpRoom file m (put command.key command.value)
CommandRoom CommandType.del command file m = OpRoom file m (remove command.key)
CommandRoom _ command file m = Unit

-- There is room for each line in its turn, up to the first EXIT.
abbrev pub HasRoom : Bytes → Map → List Bytes → Type 0
HasRoom file m [] = Unit
HasRoom file m (line ∷ lines) =
    let command = CliParser.parse line in
    CommandRoom command.type command file m
    × (goes_on command.type ≡ true
        → HasRoom (file_after command.type command file) (map_after command.type command m) lines)

pub map_after-IsMap :
    (type : CommandType) (command : Command) (m : Map) → IsMap m → IsMap (map_after type command m)
map_after-IsMap CommandType.set command m i = insert-IsMap command.key command.value m i
map_after-IsMap CommandType.del command m i = erase-IsMap command.key m i
map_after-IsMap CommandType.invalid command m i = i
map_after-IsMap CommandType.get command m i = i
map_after-IsMap CommandType.clear_persistence command m i = i
map_after-IsMap CommandType.help command m i = i
map_after-IsMap CommandType.exit command m i = i

pub table-map_after :
    (type : CommandType) (command : Command) (m : Map) (i : IsMap m)
    → table (map_after type command m) (map_after-IsMap type command m i)
      ≡ changed_by type command (table m i)
unfolding map_after-IsMap put_entry drop_entry
table-map_after CommandType.set command m i = refl
table-map_after CommandType.del command m i = refl
table-map_after CommandType.invalid command m i = refl
table-map_after CommandType.get command m i = refl
table-map_after CommandType.clear_persistence command m i = refl
table-map_after CommandType.help command m i = refl
table-map_after CommandType.exit command m i = refl

pub map_after-Fits :
    (type : CommandType) (command : Command) (file : Bytes) (m : Map)
    → CommandRoom type command file m
    → Fits m
    → Fits (map_after type command m)
map_after-Fits CommandType.set command file m room f = room.fits
map_after-Fits CommandType.del command file m room f = room.fits
map_after-Fits CommandType.invalid command file m room f = f
map_after-Fits CommandType.get command file m room f = f
map_after-Fits CommandType.clear_persistence command file m room f = f
map_after-Fits CommandType.help command file m room f = f
map_after-Fits CommandType.exit command file m room f = f
