-- ===== src/Tests/Sessions.antt =====
-- Sessions at the prompt, over a disk that fails and over one that does not.
use agent_kv.Prelude.{Bytes, bytes_eq, codes, List, [], ◌∷◌, ◌≡◌, refl, arith}
use agent_kv.StringUtils.{trim, split_whitespace_view, to_upper, upper, is_space}
use agent_kv.BinaryIo.{le_bytes}
use mathlib.Core.Bool.{false≢true}
use agent_kv.Map.{lookup, insert, erase, IsMap}
use agent_kv.Map.Table.{table, find, put_entry, drop_entry}
use agent_kv.Snapshot.Image.{image}
use agent_kv.Wal.Frame.{frame}
use agent_kv.CliParser.{parse, dispatch, join_tokens}
use agent_kv.CliServer.{run}
use agent_kv.CliServer.Spec.{transcript}
use agent_kv.CliServer.Refines.{Recorded, run-Transcript}
use agent_kv.CliServer.Room.{HasRoom}
use agent_kv.CliServer.Calm.{Agree, run-transcript}
use agent_kv.Tests.{one_put}
use agent_kv.Tests.Stores.{live, apart, apart', one_entry}
use agent_kv.Tests.Failures.{calm_live, calm_live-Ready, one_entry-Fits}

abbrev typed : List Bytes
typed =
    codes "set k w"
    ∷ codes "GET k"
    ∷ codes "CLEAR PERSISTENCE"
    ∷ codes "DEL k"
    ∷ codes "EXIT"
    ∷ codes "HELP"
    ∷ []

one_entry-IsMap : IsMap one_entry
unfolding lookup
one_entry-IsMap = (refl, tt)

run-Transcript_example : Recorded typed one_entry one_entry-IsMap (run typed live)
run-Transcript_example = run-Transcript typed live one_entry-IsMap

typed-HasRoom : HasRoom (frame one_put) one_entry typed
unfolding parse dispatch trim split_whitespace_view to_upper upper is_space join_tokens bytes_eq
    le_bytes image insert erase
typed-HasRoom = (
  record {
    writable = omega arith;
    log = omega arith;
    fits = record {
      encodable = (omega arith, omega arith, tt);
      few = omega arith;
      room = λ n. omega arith;
    };
  },
  λ _. (
    tt,
    λ _. (
      tt,
      λ _. (
        record {
          writable = omega arith;
          log = omega arith;
          fits = record { encodable = tt; few = omega arith; room = λ n. omega arith };
        },
        λ _. (tt, λ stops. absurd (false≢true stops)),
      ),
    ),
  ),
)

run-transcript_example :
    Agree (run typed calm_live) (transcript typed (table one_entry one_entry-IsMap))
run-transcript_example =
    run-transcript apart apart' typed one_entry-IsMap calm_live typed-HasRoom one_entry-Fits
      calm_live-Ready

-- What is printed.
printed :
    (transcript typed (table one_entry one_entry-IsMap)).0
    ≡ codes
        "kv-store> OK\nkv-store> w\nkv-store> OK persistence cleared\nkv-store> 1\nkv-store> Bye\n"
unfolding transcript parse dispatch trim split_whitespace_view to_upper upper is_space join_tokens
    bytes_eq put_entry drop_entry find lookup insert erase
printed = refl
