-- ===== src/KvStore/Behind/Saving.antt =====
-- Saving a snapshot over whatever is behind a store.
use agent_kv.Prelude.{ℕ, Bytes, length, true, ◌≡◌, ◌≢◌, inl, inr, refl, sym, subst, ◌∙◌, Bool-cases}
use agent_kv.Exec.{Result, ok, err, continue}
use agent_kv.Map.{Map, IsMap}
use agent_kv.Disk.{Disk, Channel}
use agent_kv.Disk.Writes.{Holds}
use agent_kv.Snapshot
use agent_kv.Snapshot.{temp_path}
use agent_kv.Snapshot.Image.{IsStorable, IsStorable-IsEncodable}
use agent_kv.Snapshot.Save.{Saved, save-Saved, Counted, save-Counted}
use agent_kv.Wal.{current_offset}
use agent_kv.Wal.Offset.{Measured, current_offset-Measured, current_offset_bad}
use agent_kv.KvStore.{World, on_wal, on_disk, update_store, write_snapshot, checkpoint}
use agent_kv.KvStore.Durable.{IsCheckpoint, IsDurable, Backed-same}
use agent_kv.KvStore.Logging.{after}
use agent_kv.KvStore.Locate.{Clean, wal_offset-some}
use agent_kv.KvStore.Checkpoint.{covered, Saves, checkpoint-Saves}
use agent_kv.KvStore.Behind.{Stored, kept, torn, unknown, Loose, Behind}
use agent_kv.KvStore.Behind.Logging.{loosened, channel, channel-Holds}

module _ (wal_path snapshot_path : Bytes) where
  -- The outcome of a save.
  abbrev pub SavesOver : {A : Type 0} → Stored → World → Result A × World → Type 0
  SavesOver stored s (ok _, s') =
      (s'.store.entries ≡ s.store.entries) × IsDurable wal_path snapshot_path s'
  SavesOver stored s (err _, s') =
      (s'.store.entries ≡ s.store.entries) × Behind wal_path snapshot_path stored s'

module _ {wal_path snapshot_path : Bytes} (apart : wal_path ≢ snapshot_path)
    (apart' : wal_path ≢ temp_path snapshot_path) where
  -- The save behind a measured log.
  written :
      (s : World) (b : Loose wal_path snapshot_path s) {n : ℕ} (c : Channel)
      (r : Result (Unit {0}) × Disk)
      → IsStorable s.store.entries
      → IsMap s.store.entries
      → n ≡ length b.file
      → c.output.good ≡ true
      → Holds wal_path b.file s.disk.files c
      → Saved snapshot_path s.store.entries n c.disk r
      → Counted s.store.entries r
      → SavesOver wal_path snapshot_path unknown s (
          continue r.0
            (λ _. update_store (λ k. record k { writes_since_snapshot = 0 }))
            (record (after s c) { disk = r.1 }))
  written s b {n} c (ok u, d) storable map size up h saved few =
      let clean : Clean wal_path snapshot_path n (after s c) = record {
        log = c.output;
        file = b.file;
        wal = refl;
        snapshot = b.snapshot;
        target = h.target;
        good = up;
        holds = h.file;
        bound = h.bound;
        size = size;
      } in
      (
        refl,
        Backed-same (covered apart apart' (after s c) d storable map clean saved few) _ refl refl
            refl,
      )
  written s b c (err e, d) storable map size up h (snap, rest) few =
      let b' = loosened apart s b.file c b h in
      (
        refl,
        record {
          log = b'.log;
          file = b'.file;
          offset = b'.offset;
          base = b'.base;
          wal = b'.wal;
          snapshot = b'.snapshot;
          target = b'.target;
          holds = rest wal_path (λ e. apart (sym e)) (λ e. apart' (sym e)) ∙ b'.holds;
          bound = b'.bound;
          small = b'.small;
          checkpoint = subst (λ f. IsCheckpoint f b'.offset b'.base) (sym snap) b'.checkpoint;
        },
      )

  measured :
      (s : World) (b : Loose wal_path snapshot_path s) (r : Result ℕ × Channel)
      → IsStorable s.store.entries
      → IsMap s.store.entries
      → Measured wal_path b.file s.disk.files r
      → SavesOver wal_path snapshot_path unknown s
          (continue r.0 (write_snapshot snapshot_path) (after s r.1))
  unfolding write_snapshot on_disk
  measured s b (err e, c) storable map h = (refl, loosened apart s b.file c b h)
  measured s b (ok n, c) storable map (size, up, h) =
      written s b c (Snapshot.save snapshot_path s.store.entries n c.disk) storable map size up h
        (save-Saved snapshot_path s.store.entries n c.disk
          (IsStorable-IsEncodable s.store.entries storable))
        (save-Counted snapshot_path s.store.entries n c.disk)

  Loose-SavesOver :
      (s : World) (b : Loose wal_path snapshot_path s)
      → IsStorable s.store.entries
      → IsMap s.store.entries
      → SavesOver wal_path snapshot_path unknown s (checkpoint snapshot_path s)
  unfolding checkpoint on_wal
  Loose-SavesOver s b storable map =
      subst
        (λ (o : Result ℕ × World).
          SavesOver wal_path snapshot_path unknown s
            (continue o.0 (write_snapshot snapshot_path) o.1))
        (sym (wal_offset-some s b.wal))
        (elim (Bool-cases b.log.good) [
          | inr down ↦
              let (e, eq) = current_offset_bad (channel apart s b) down in
              subst
                (λ (o : Result ℕ × Channel).
                  SavesOver wal_path snapshot_path unknown s
                    (continue o.0 (write_snapshot snapshot_path) (after s o.1)))
                (sym eq)
                (refl, loosened apart s b.file (channel apart s b) b (channel-Holds apart s b))
          | inl up ↦
              measured s b (current_offset (channel apart s b)) storable map
                (current_offset-Measured _ _ _ _ up (channel-Holds apart s b))
        ])

  saves_kept :
      {A : Type 0} (n : Map) (s : World) (r : Result A × World)
      → Saves apart apart' n s r
      → SavesOver wal_path snapshot_path (kept n) s r
  saves_kept n s (ok _, _) h = h
  saves_kept n s (err _, _) h = h

  -- Taking a checkpoint, with any failures.
  pub checkpoint-SavesOver :
      (stored : Stored) (s : World)
      → Behind wal_path snapshot_path stored s
      → IsStorable s.store.entries
      → IsMap s.store.entries
      → SavesOver wal_path snapshot_path stored s (checkpoint snapshot_path s)
  checkpoint-SavesOver (kept n) s b storable map =
      saves_kept n s (checkpoint snapshot_path s) (checkpoint-Saves apart apart' s b storable map)
  checkpoint-SavesOver (torn n) s b _ _ = absurd b
  checkpoint-SavesOver unknown s b storable map = Loose-SavesOver s b storable map
