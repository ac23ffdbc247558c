-- ===== src/KvStore/Life.antt =====
-- The life of a store over many processes, as a machine whose steps are the calls, the deaths of the
-- process and the starts of `main`; and the pair of maps that it implements.
use agent_kv.Prelude.{ℕ, Bytes, List, [], ◌∷◌, Bool, true, false, ◌≡◌, ◌⊎◌}
use agent_kv.Exec.{ok, err}
use agent_kv.Map.{Map, lookup}
use agent_kv.Wal.Frame.{Op, put, remove, apply_op}
use agent_kv.Disk.{Disk, Fate}
use agent_kv.Snapshot.{LoadResult}
use agent_kv.KvStore.{World, set, delete, save_snapshot, clear_persistence, start, is_there}
use agent_kv.KvStore.Recovery.{log_is_good}
use agent_kv.KvStore.Behind.{Stored, kept, torn, unknown, op_on}

-- What is seen of a step.
pub data Event : Type 0 where
  set_returned : Bytes → Bytes → Event
  set_threw : Bytes → Bytes → Event
  delete_returned : Bytes → Bool → Event
  delete_threw : Bytes → Event
  snapshot_returned : Bool → Event
  snapshot_threw : Event
  cleared : Event
  died : Bool → Event
  started : Event
  start_threw : Event

-- A process that serves, or the disk between two processes.
pub data Phase : Type 0 where
  up : World → Phase
  down : Disk → Phase

module _ (wal_path snapshot_path : Bytes) where
  -- The process may die between two requests; what will fail on the disk in the life of the next
  -- process is then open. There is no step for a `ClearPersistence` that throws.
  pub data Step : Event → Phase → Phase → Type 0 where
    set_ok :
        {key value : Bytes} {s s' : World}
        → set key value s ≡ (ok tt, s')
        → Step (set_returned key value) (up s) (up s')
    set_err :
        {key value e : Bytes} {s s' : World}
        → set key value s ≡ (err e, s')
        → Step (set_threw key value) (up s) (up s')
    delete_ok :
        {key : Bytes} {erased : Bool} {s s' : World}
        → delete key s ≡ (ok erased, s')
        → Step (delete_returned key erased) (up s) (up s')
    delete_err :
        {key e : Bytes} {s s' : World}
        → delete key s ≡ (err e, s')
        → Step (delete_threw key) (up s) (up s')
    snapshot_ok :
        {reply : Bool} {s s' : World}
        → save_snapshot s ≡ (ok reply, s')
        → Step (snapshot_returned reply) (up s) (up s')
    snapshot_err :
        {e : Bytes} {s s' : World}
        → save_snapshot s ≡ (err e, s')
        → Step snapshot_threw (up s) (up s')
    clear_ok : {s s' : World} → clear_persistence s ≡ (ok tt, s') → Step cleared (up s) (up s')
    death :
        {s : World} (fates : List Fate)
        → Step (died (log_is_good s)) (up s) (down (record s.disk { fates = fates }))
    start_ok :
        {d : Disk} {s : World} {r : LoadResult × ℕ}
        → start wal_path snapshot_path d ≡ (ok r, s)
        → Step started (down d) (up s)
    start_err :
        {d : Disk} {s : World} {e : Bytes}
        → start wal_path snapshot_path d ≡ (err e, s)
        → (fates : List Fate) → Step start_threw (down d) (down (record s.disk { fates = fates }))

  pub data Steps : List Event → Phase → Phase → Type 0 where
    rest : {p : Phase} → Steps [] p p
    then :
        {e : Event} {es : List Event} {p q r : Phase}
        → Step e p q
        → Steps es q r
        → Steps (e ∷ es) p r

-- The map in memory, and what outlives the process.
pub record Pair : Type 0 where
  pub memory : Map
  pub stored : Stored

-- An operation is done to both; a snapshot that it takes stores the map in memory.
abbrev pub BothBy : Op → Pair → Pair → Type 0
BothBy op p q =
    (q.memory ≡ apply_op op p.memory)
    × ((q.stored ≡ op_on op p.stored) ⊎ (q.stored ≡ kept (apply_op op p.memory)))

abbrev pub Same : Pair → Pair → Type 0
Same p q = (q.memory ≡ p.memory) × (q.stored ≡ p.stored)

-- What is left when the stream of the log has failed.
abbrev pub torn_from : Stored → Stored
torn_from (kept n) = torn n
torn_from (torn n) = torn n
torn_from unknown = unknown

-- What a start finds: the stored map; behind a torn log this map, or it with one operation more, and
-- what is logged from then on is not known to be kept.
abbrev pub Finds : Stored → Pair → Type 0
Finds (kept n) q = (q.memory ≡ n) × (q.stored ≡ kept n)
Finds (torn n) q =
    ((q.memory ≡ n) ⊎ ((op : Op) × (q.memory ≡ apply_op op n))) × (q.stored ≡ unknown)
Finds unknown q = q.stored ≡ unknown

-- The same event of such a pair: a call that returns has had its effect on both, one that throws has
-- had it on both or on neither; a snapshot stores the map in memory, a clear the empty map, and a
-- death keeps what is stored, but for one operation if the log's stream has failed.
abbrev pub Moves : Event → Pair → Pair → Type 0
Moves (set_returned key value) p q = BothBy (put key value) p q
Moves (set_threw key value) p q = BothBy (put key value) p q ⊎ Same p q
Moves (delete_returned key erased) p q =
    (erased ≡ is_there (lookup key p.memory)) × BothBy (remove key) p q
Moves (delete_threw key) p q = BothBy (remove key) p q ⊎ Same p q
Moves (snapshot_returned reply) p q =
    (reply ≡ true) × (q.memory ≡ p.memory) × (q.stored ≡ kept p.memory)
Moves snapshot_threw p q = Same p q
Moves cleared p q = (q.memory ≡ p.memory) × (q.stored ≡ kept [])
Moves (died true) p q = q.stored ≡ p.stored
Moves (died false) p q = q.stored ≡ torn_from p.stored
Moves started p q = Finds p.stored q
Moves start_threw p q = q.stored ≡ p.stored

pub data History : List Event → Pair → Pair → Type 0 where
  rest : {p : Pair} → History [] p p
  then :
      {e : Event} {es : List Event} {p q r : Pair}
      → Moves e p q
      → History es q r
      → History (e ∷ es) p r
