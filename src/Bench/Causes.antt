-- ===== src/Bench/Causes.antt =====
-- What a run of a workload may throw, and what a preload leaves in the store.
use agent_kv.Prelude.{◌∙◌, ℕ, Bytes, List, [], ◌∷◌, Bool, ◌≡◌, refl, ap}
use agent_kv.Exec.{Result, ok, err, Exec, continue, lift, pure, ◌>>=◌, ◌>>◌}
use agent_kv.Map.{Map, insert}
use agent_kv.Disk.{Disk, OutStream}
use agent_kv.Wal
use agent_kv.Wal.Frame.{put}
use agent_kv.KvStore.{World, set, save_snapshot}
use agent_kv.KvStore.Entries.{Applied, Has, set-Applied, save_snapshot-Has}
use agent_kv.Bench.Utils.{
  Elements, value_bytes, key_strings, plan_steps, fixed_value, make_fixed_value, temp_directory,
}
use agent_kv.Bench.Workloads.{
  WorkloadConfig, MixedOperation, indexed_keys, make_keys, mixed_plan, build_mixed_plan, Bench,
  on_world, open_store, opened_store, wal_path, preload_store,
}
use agent_kv.Bench.Workloads.Filled.{filled}
use agent_kv.Bench.Machine.{Machine, now, enter_directory, without_directory, in_directory}

-- What threw an exception of this text.
pub data Cause (machine : Machine) (e : Bytes) : Type 0 where
  no_base : machine.base ≡ err e → Cause machine e
  no_directory :
      (base label : Bytes) (stamp : ℕ)
      → machine.base ≡ ok base
      → temp_directory base machine.create label stamp ≡ err e
      → Cause machine e
  no_room :
      (elements : Elements) (count : ℕ) → machine.reserve elements count ≡ err e → Cause machine e
  no_log : (path : Bytes) (d : Disk) → (Wal.open_log path d).0 ≡ err e → Cause machine e
  no_set : (key value : Bytes) (w : World) → (set key value w).0 ≡ err e → Cause machine e
  no_save : (w : World) → (save_snapshot w).0 ≡ err e → Cause machine e

module _ (machine : Machine) where
  -- A call that returns satisfies `P`, and one that throws has a cause.
  abbrev pub Ends : {A : Type 0} → (A → Bench → Type 0) → Result A × Bench → Type 0
  Ends P (ok a, s) = P a s
  Ends P (err e, s) = Cause machine e

  pub Ends-continue :
      {A B : Type 0} (Q : A → Bench → Type 0) (P : B → Bench → Type 0) (r : Result A × Bench)
      (next : A → Exec Bench B)
      → Ends Q r
      → ((a : A) (s : Bench) → Q a s → Ends P (next a s))
      → Ends P (continue r.0 next r.1)
  Ends-continue Q P (ok a, s) next q goes = goes a s q
  Ends-continue Q P (err e, s) next cause goes = cause

  -- A value that is made behind a `reserve`.
  reserved :
      {A B : Type 0} (P : B → Bench → Type 0) (elements : Elements) (count : ℕ)
      (r : Result (Unit {0})) (a : A) (next : A → Exec Bench B) (s : Bench)
      → machine.reserve elements count ≡ r
      → Ends P (next a s)
      → Ends P (((lift r >> pure a) >>= next) s)
  reserved P elements count (ok u) a next s e ends = ends
  reserved P elements count (err message) a next s e ends = no_room elements count e

  -- Each call that reserves room throws for want of it, and else goes on with what is made.
  pub reserve-Ends :
      {B : Type 0} (P : B → Bench → Type 0) (elements : Elements) (count : ℕ) (next : Exec Bench B)
      (s : Bench)
      → Ends P (next s)
      → Ends P ((lift (machine.reserve elements count) >> next) s)
  reserve-Ends P elements count next s ends = behind (machine.reserve elements count) refl
    where
      behind :
          (r : Result (Unit {0})) → machine.reserve elements count ≡ r → Ends P ((lift r >> next) s)
      behind (ok u) e = ends
      behind (err message) e = no_room elements count e

  pub make_fixed_value-Ends :
      {B : Type 0} (P : B → Bench → Type 0) (size_bytes : ℕ) (next : Bytes → Exec Bench B)
      (s : Bench)
      → Ends P (next (fixed_value size_bytes) s)
      → Ends P ((make_fixed_value machine.reserve size_bytes >>= next) s)
  unfolding make_fixed_value
  make_fixed_value-Ends P size_bytes next s =
      reserved P value_bytes size_bytes (machine.reserve value_bytes size_bytes)
        (fixed_value size_bytes) next s refl

  pub make_keys-Ends :
      {B : Type 0} (P : B → Bench → Type 0) (prefix : Bytes) (count : ℕ)
      (next : List Bytes → Exec Bench B) (s : Bench)
      → Ends P (next (indexed_keys prefix count) s)
      → Ends P ((make_keys machine.reserve prefix count >>= next) s)
  unfolding make_keys
  make_keys-Ends P prefix count next s =
      reserved P key_strings count (machine.reserve key_strings count) (indexed_keys prefix count)
        next s refl

  pub build_mixed_plan-Ends :
      {B : Type 0} (P : B → Bench → Type 0) (config : WorkloadConfig) (keyspace_size : ℕ)
      (next : List MixedOperation → Exec Bench B) (s : Bench)
      → Ends P (next (mixed_plan machine.generator config keyspace_size) s)
      → Ends P
          ((build_mixed_plan machine.reserve machine.generator config keyspace_size >>= next) s)
  unfolding build_mixed_plan
  build_mixed_plan-Ends P config keyspace_size next s =
      reserved P plan_steps config.operations (machine.reserve plan_steps config.operations)
        (mixed_plan machine.generator config keyspace_size) next s refl

  set_outcome :
      (key value : Bytes) (s : Bench) (r : Result (Unit {0}) × World)
      → set key value s.world ≡ r
      → Applied (put key value) s.world.store.entries r
      → Ends
          (λ _ t. t.world.store.entries ≡ insert key value s.world.store.entries)
          (r.0, record s { world = r.1 })
  set_outcome key value s (ok u, w) e h = h
  set_outcome key value s (err message, w) e h = no_set key value s.world (ap (λ r. r.0) e)

  pub set-Ends :
      (key value : Bytes) (s : Bench)
      → Ends
          (λ _ t. t.world.store.entries ≡ insert key value s.world.store.entries)
          (on_world (set key value) s)
  unfolding on_world
  set-Ends key value s =
      set_outcome key value s (set key value s.world) refl (set-Applied key value s.world)

  save_outcome :
      (s : Bench) (r : Result Bool × World)
      → save_snapshot s.world ≡ r
      → Has s.world.store.entries r
      → Ends (λ _ t. t.world.store.entries ≡ s.world.store.entries) (r.0, record s { world = r.1 })
  save_outcome s (ok u, w) e h = h
  save_outcome s (err message, w) e h = no_save s.world (ap (λ r. r.0) e)

  pub save_snapshot-Ends :
      (s : Bench)
      → Ends (λ _ t. t.world.store.entries ≡ s.world.store.entries) (on_world save_snapshot s)
  unfolding on_world
  save_snapshot-Ends s = save_outcome s (save_snapshot s.world) refl (save_snapshot-Has s.world)

  -- The directory was made, and nothing else has happened.
  abbrev pub Entered : Bytes → Bench → Bytes → Bench → Type 0
  Entered label s directory t =
      (t.world ≡ s.world)
      × (stamp : ℕ) × (base : Bytes) × (machine.base ≡ ok base)
      × (temp_directory base machine.create label stamp ≡ ok directory)

  directory_outcome :
      (base label : Bytes) (stamp : ℕ) (s t : Bench) (r : Result Bytes)
      → t.world ≡ s.world
      → machine.base ≡ ok base
      → temp_directory base machine.create label stamp ≡ r
      → Ends (Entered label s) (r, t)
  directory_outcome base label stamp s t (ok d) same there e = (same, stamp, base, there, e)
  directory_outcome base label stamp s t (err message) same there e =
      no_directory base label stamp there e

  base_outcome :
      (label : Bytes) (stamp : ℕ) (s t : Bench) (r : Result Bytes)
      → t.world ≡ s.world
      → machine.base ≡ r
      → Ends
          (Entered label s)
          (continue r (λ base. lift (temp_directory base machine.create label stamp)) t)
  base_outcome label stamp s t (ok base) same there =
      directory_outcome base label stamp s t (temp_directory base machine.create label stamp) same
        there refl
  base_outcome label stamp s t (err message) same there = no_base there

  enter_directory-Ends :
      (label : Bytes) (s : Bench) → Ends (Entered label s) (enter_directory machine label s)
  unfolding enter_directory now
  enter_directory-Ends label s =
      base_outcome label (machine.clock s.readings) s _ machine.base refl refl

  cleaned-Ends :
      {A : Type 0} (P : A → Type 0) (directory : Bytes) (r : Result A × Bench)
      → Ends (λ a _. P a) r
      → Ends (λ a _. P a) (without_directory machine directory r)
  unfolding without_directory
  cleaned-Ends P directory (ok a, s) h = h
  cleaned-Ends P directory (err e, s) cause = cause

  -- Making the directory and removing it again.
  pub in_directory-Ends :
      {A : Type 0} (P : A → Type 0) (label : Bytes) (run : Bytes → Exec Bench A) (s : Bench)
      → ((directory : Bytes) (t : Bench)
          → Entered label s directory t
          → Ends (λ a _. P a) (run directory t))
      → Ends (λ a _. P a) (in_directory machine label run s)
  unfolding in_directory
  in_directory-Ends P label run s goes =
      Ends-continue (Entered label s) (λ a _. P a) (enter_directory machine label s)
        (λ directory t. without_directory machine directory (run directory t))
        (enter_directory-Ends label s)
        (λ directory t entered.
          cleaned-Ends P directory (run directory t) (goes directory t entered))

  log_outcome :
      (directory : Bytes) (s : Bench) (r : Result OutStream × Disk)
      → Wal.open_log (wal_path directory) s.world.disk ≡ r
      → Ends (λ _ t. t.world.store.entries ≡ []) (opened_store directory s r)
  unfolding opened_store
  log_outcome directory s (ok log, d) e = refl
  log_outcome directory s (err message, d) e =
      no_log (wal_path directory) s.world.disk (ap (λ r. r.0) e)

  pub open_store-Ends :
      (directory : Bytes) (s : Bench)
      → Ends (λ _ t. t.world.store.entries ≡ []) (open_store directory s)
  unfolding open_store
  open_store-Ends directory s =
      log_outcome directory s (Wal.open_log (wal_path directory) s.world.disk) refl

module _ (machine : Machine) where
  -- A preload that returns has inserted each of its keys, in their order.
  pub preload_store-Ends :
      (keys : List Bytes) (value : Bytes) (m : Map) (s : Bench)
      → s.world.store.entries ≡ m
      → Ends machine
          (λ _ t. t.world.store.entries ≡ filled keys value m)
          (preload_store keys value s)
  unfolding preload_store filled
  preload_store-Ends [] value m s same = same
  preload_store-Ends (key ∷ keys) value m s same =
      Ends-continue machine (λ _ t. t.world.store.entries ≡ insert key value s.world.store.entries)
        (λ _ t. t.world.store.entries ≡ filled (key ∷ keys) value m) (on_world (set key value) s)
        (λ _. preload_store keys value) (set-Ends machine key value s)
        (λ _ t grown.
          preload_store-Ends keys value (insert key value m) t (grown ∙ ap (insert key value) same))
