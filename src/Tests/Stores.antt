-- ===== src/Tests/Stores.antt =====
-- The theorems on the store, from a log of one entry and no snapshot.
use agent_kv.Prelude.{
  differ, ℕ, All, Bool, true, false, ap, Bytes, bytes_eq, codes, List, [], ◌∷◌, ◌≡◌, ◌≢◌, inl, refl,
  arith,
}
use agent_kv.Snapshot.{temp_path}
use agent_kv.Disk.{Disk}
use agent_kv.Wal.Frame.{put, remove}
use agent_kv.Wal.Recovery.{frames}
use mathlib.Core.Bool.{false≢true}
use agent_kv.StringUtils.{trim, split_whitespace_view, to_upper, upper, is_space}
use agent_kv.CliParser.{parse, dispatch, CommandType}
use agent_kv.CliServer.{run}
use agent_kv.CliServer.Session.{KeepsDisk, run-IsRecovered}
use agent_kv.BinaryIo.{le_bytes}
use agent_kv.Map.{Map, insert}
use agent_kv.Exec.{ok}
use agent_kv.Snapshot.{LoadResult}
use agent_kv.KvStore.{
  KvStore, World, fresh_store, set, contains, delete, save_snapshot, recover, start,
}
use agent_kv.KvStore.{clear_persistence}
use agent_kv.KvStore.Cleared.{Cleared, clear_persistence-Cleared}
use agent_kv.KvStore.Durable.{IsDurable}
use agent_kv.KvStore.Sessions.{
  IsSound, Started, start-Started, Request, set_entry, delete_entry, take_snapshot, serve_all,
  recover-serve_all,
}
use agent_kv.KvStore.Requests.{Done, Ends, set-Done, delete-Done, save_snapshot-Ends}
use agent_kv.KvStore.Recovery.{IsRecovered}
use agent_kv.Tests.{log_path, dump_path, one_put, one_put-IsWritable, log_disk, log_channel}

pub apart : log_path ≢ dump_path
unfolding bytes_eq
apart = differ log_path dump_path refl

pub apart' : log_path ≢ temp_path dump_path
unfolding bytes_eq
apart' = differ log_path (temp_path dump_path) refl

abbrev pub one_entry : Map
one_entry = (codes "k", codes "v") ∷ []

abbrev pub live : World
live = record {
  store = record (fresh_store (log_channel []).output dump_path) { entries = one_entry };
  disk = log_disk (frames (one_put ∷ []));
}

pub live-IsDurable : IsDurable log_path dump_path live
unfolding bytes_eq le_bytes insert
live-IsDurable = record {
  log = (log_channel []).output;
  base = [];
  before = [];
  ops = one_put ∷ [];
  tail = [];
  wal = refl;
  snapshot = refl;
  target = refl;
  file = refl;
  bound = omega arith;
  checkpoint = inl (refl, refl, refl);
  writable = (one_put-IsWritable, tt);
  ending = refl;
  rebuilt = refl;
}

abbrev sound_disk : Disk
sound_disk = log_disk (frames (one_put ∷ []))

sound_disk-IsSound : IsSound log_path dump_path one_entry sound_disk
unfolding bytes_eq le_bytes insert
sound_disk-IsSound = record {
  base = [];
  before = [];
  ops = one_put ∷ [];
  file = refl;
  bound = omega arith;
  checkpoint = inl (refl, refl, refl);
  writable = (one_put-IsWritable, tt);
  rebuilt = refl;
}

start-Started_example : Started log_path dump_path one_entry (start log_path dump_path sound_disk)
start-Started_example = start-Started apart sound_disk-IsSound

abbrev pub asked : List Request
asked = set_entry (codes "a") (codes "b") ∷ delete_entry (codes "k") ∷ take_snapshot ∷ []

abbrev pub after : World
after = serve_all asked live

abbrev empty_store : KvStore
empty_store = fresh_store (log_channel []).output dump_path

recover-serve_all_example :
    (r : LoadResult × ℕ) × (m : Map) × (recover log_path dump_path
        (record { store = empty_store; disk = after.disk })
      ≡ (ok r, record { store = record empty_store { entries = m }; disk = after.disk }))
    × IsRecovered log_path after m
recover-serve_all_example =
    recover-serve_all apart apart' asked live empty_store live-IsDurable refl

set-Done_example :
    Done log_path dump_path
      (put (codes "a") (codes "b"))
      live
      (λ _. Unit)
      (set (codes "a") (codes "b") live)
set-Done_example = set-Done apart apart' (codes "a") (codes "b") live live-IsDurable

delete-Done_example :
    Done log_path dump_path
      (remove (codes "k"))
      live
      (λ erased. erased ≡ contains (codes "k") live)
      (delete (codes "k") live)
delete-Done_example = delete-Done apart apart' (codes "k") live live-IsDurable

save_snapshot-Ends_example :
    Ends log_path dump_path (λ saved. saved ≡ true) live (save_snapshot live)
save_snapshot-Ends_example = save_snapshot-Ends apart apart' live live-IsDurable

abbrev typed : List Bytes
typed = codes "SET a b" ∷ codes "get a" ∷ codes "EXIT" ∷ []

abbrev clears : CommandType → Bool
clears CommandType.clear_persistence = true
clears _ = false

typed-KeepsDisk : All KeepsDisk typed
unfolding parse dispatch trim split_whitespace_view to_upper upper is_space bytes_eq
typed-KeepsDisk = (
  λ e. false≢true (ap clears e),
  (λ e. false≢true (ap clears e), (λ e. false≢true (ap clears e), tt)),
)

run-IsRecovered_example :
    (r : LoadResult × ℕ) × (m : Map) × (recover log_path dump_path
        (record { store = empty_store; disk = (run typed live).1.disk })
      ≡ (
        ok r,
        record { store = record empty_store { entries = m }; disk = (run typed live).1.disk },
      ))
    × IsRecovered log_path (run typed live).1 m
run-IsRecovered_example =
    run-IsRecovered apart apart' typed live empty_store typed-KeepsDisk live-IsDurable refl

clear_persistence-Cleared_example : Cleared log_path dump_path live (clear_persistence live)
clear_persistence-Cleared_example = clear_persistence-Cleared apart apart' live refl refl refl
