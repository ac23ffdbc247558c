-- ===== src/Snapshot/Torn.antt =====
-- A snapshot file that lacks its end is refused, wherever it was cut.
use agent_kv.Prelude.{
  ℕ, ◌≤◌, ◌<◌, ◌^◌, Bytes, codes, [], ◌∷◌, ◌++◌, length, append_assoc, append-eq-nil, front_cases,
  none, some, ◌≡◌, ◌≢◌, ◌⊎◌, inl, inr, refl, sym, ap, ◌∙◌, arith, ltb-false,
}
use agent_kv.Exec.{ok, err}
use agent_kv.Map.{Map, insert}
use agent_kv.Disk.{Disk}
use agent_kv.BinaryIo.{le_bytes, read_primitive, read_bytes}
use agent_kv.BinaryIo.Codec.{
  sized, length-le_bytes, read_primitive-le_bytes, read_primitive_short, read_bytes-append,
  read_bytes_short,
}
use agent_kv.Snapshot.{
  snapshot_magic, snapshot_version, max_field_length, read_value, read_key, read_entry,
  load_entries, load_all, load_metadata, load,
}
use agent_kv.Snapshot.Image.{entries_bytes, image, IsStorable}
use agent_kv.Snapshot.Load.{read_entry-sized, read_entry-written, load_file-magic}

-- The front of a field behind its size, when the size can be read: cut in it, or whole.
read_value_front :
    (key value p missing rest : Bytes)
    → length value ≤ max_field_length
    → p ++ missing ≡ sized value ++ rest
    → (read_value key (read_primitive 4 p) ≡ ok none)
      ⊎ ((p' : Bytes) × (p ≡ sized value ++ p') × (p' ++ missing ≡ rest))
unfolding read_value
read_value_front key value p missing rest small joined =
    let size : Bytes = le_bytes 4 (length value) in
    elim (front_cases size p missing (value ++ rest) (joined ∙ append_assoc size value rest)) [
      | inl short ↦
          inl (rw (read_primitive_short 4 p (omega (arith, length-le_bytes 4 (length value)))))
      | inr (p₁, e₁, j₁) ↦
          let read : read_primitive 4 p ≡ some (length value, p₁) =
            ap (read_primitive 4) e₁ ∙ read_primitive-le_bytes 4 (length value) p₁ (omega arith) in
          elim (front_cases value p₁ missing rest j₁) [
            | inl short ↦ inl (
                rw (
                  read,
                  ltb-false max_field_length (length value) small,
                  read_bytes_short (length value) p₁ short,
                ))
            | inr (p₂, e₂, j₂) ↦
                inr (p₂, e₁ ∙ ap (λ b. size ++ b) e₂ ∙ sym (append_assoc size value p₂), j₂)
          ]
    ]

-- The front of an entry: it does not read, or the entry is whole.
read_entry_front :
    (key value p missing rest : Bytes)
    → length key ≤ max_field_length
    → length value ≤ max_field_length
    → p ++ missing ≡ (sized key ++ sized value) ++ rest
    → (read_entry p ≡ ok none)
      ⊎ ((p' : Bytes) × (p ≡ (sized key ++ sized value) ++ p') × (p' ++ missing ≡ rest))
unfolding read_entry read_key
read_entry_front key value p missing rest k v joined =
    let size : Bytes = le_bytes 4 (length key) in
    elim (front_cases size p missing (key ++ (sized value ++ rest))
      (joined ∙ read_entry-sized key value rest)) [
        | inl short ↦
            inl (rw (read_primitive_short 4 p (omega (arith, length-le_bytes 4 (length key)))))
        | inr (p₁, e₁, j₁) ↦
            let read : read_primitive 4 p ≡ some (length key, p₁) =
              ap (read_primitive 4) e₁ ∙ read_primitive-le_bytes 4 (length key) p₁ (omega arith) in
            elim (front_cases key p₁ missing (sized value ++ rest) j₁) [
              | inl short ↦ inl (
                  rw (
                    read,
                    ltb-false max_field_length (length key) k,
                    read_bytes_short (length key) p₁ short,
                  ))
              | inr (p₂, e₂, j₂) ↦
                  let taken : read_bytes (length key) p₁ ≡ some (key, p₂) =
                    ap (read_bytes (length key)) e₂ ∙ read_bytes-append (length key) key p₂ refl in
                  elim (read_value_front key value p₂ missing rest v j₂) [
                    | inl cut ↦
                        inl (rw (read, ltb-false max_field_length (length key) k, taken) cut)
                    | inr (p₃, e₃, j₃) ↦ inr (
                      p₃,
                      e₁
                          ∙ ap (λ b. size ++ b) (e₂ ∙ ap (λ b. key ++ b) e₃)
                          ∙ sym (read_entry-sized key value p₃),
                      j₃,
                    )
                  ]
            ]
      ]

load_entries_torn :
    (store loaded : Map) (p missing : Bytes)
    → IsStorable store
    → p ++ missing ≡ entries_bytes store
    → missing ≢ []
    → load_entries (length store) p loaded ≡ err (codes "failed to load snapshot")
unfolding load_entries
load_entries_torn [] loaded p missing s joined lacks =
    absurd (lacks (append-eq-nil p missing joined))
load_entries_torn ((key, value) ∷ store) loaded p missing (k, v, s) joined lacks =
    elim (read_entry_front key value p missing (entries_bytes store) k v joined) [
      | inl cut ↦ rw (cut, load_entries)
      | inr (p', e, j) ↦
          let read : read_entry p ≡ ok (some (key, value, p')) =
            ap read_entry e ∙ read_entry-written key value p' k v in
          rw (read, load_entries)
            (load_entries_torn store (insert key value loaded) p' missing s j lacks)
    ]

-- What stands behind the magic number, cut somewhere.
module _ (wal_offset : ℕ) (store : Map) (s : IsStorable store) (few : length store < 2 ^ 32)
    (small : wal_offset < 2 ^ 64) where
  load_metadata_torn :
      (p missing : Bytes)
      → p ++ missing
        ≡ le_bytes 4 snapshot_version
          ++ (le_bytes 8 wal_offset ++ (le_bytes 4 (length store) ++ entries_bytes store))
      → missing ≢ []
      → (e : Bytes) × (load_metadata p ≡ err e)
  unfolding load_metadata load_all
  load_metadata_torn p missing joined lacks =
      let message : Bytes = codes "failed to load snapshot metadata" in
      elim (front_cases (le_bytes 4 snapshot_version) p missing _ joined) [
        | inl short ↦ (
          message,
          rw (
            read_primitive_short 4 p (omega (arith, length-le_bytes 4 snapshot_version)),
            load_metadata,
          ),
        )
        | inr (p₁, e₁, j₁) ↦
            let version =
              ap (read_primitive 4) e₁
              ∙ read_primitive-le_bytes 4 snapshot_version p₁ (omega arith) in
            elim (front_cases (le_bytes 8 wal_offset) p₁ missing _ j₁) [
              | inl short ↦ (
                message,
                rw (
                  version,
                  load_metadata,
                  read_primitive_short 8 p₁ (omega (arith, length-le_bytes 8 wal_offset)),
                  load_metadata,
                ),
              )
              | inr (p₂, e₂, j₂) ↦
                  let offset =
                    ap (read_primitive 8) e₂ ∙ read_primitive-le_bytes 8 wal_offset p₂ small in
                  elim (front_cases (le_bytes 4 (length store)) p₂ missing (entries_bytes store)
                    j₂) [
                      | inl short ↦ (
                        message,
                        rw (
                          version,
                          load_metadata,
                          offset,
                          load_metadata,
                          read_primitive_short 4 p₂
                              (omega (arith, length-le_bytes 4 (length store))),
                          load_metadata,
                        ),
                      )
                      | inr (p₃, e₃, j₃) ↦
                          let count =
                            ap (read_primitive 4) e₃
                            ∙ read_primitive-le_bytes 4 (length store) p₃ few in
                          (
                            codes "failed to load snapshot",
                            rw (
                              version,
                              load_metadata,
                              offset,
                              load_metadata,
                              count,
                              load_metadata,
                              load_entries_torn store [] p₃ missing s j₃ lacks,
                              load_all,
                            ),
                          )
                    ]
            ]
      ]

  -- A file that is the image of a map without its last bytes, however many, but still holds four
  -- bytes, is refused by every load: it throws, and the map in memory stays as it was. The fields are
  -- no longer than the limit, and the size and the offset fit their fields.
  pub load_torn :
      (path : Bytes) (d : Disk) (p missing : Bytes) (old : Map)
      → d.files path ≡ some p
      → p ++ missing ≡ image wal_offset store
      → missing ≢ []
      → 4 ≤ length p
      → (e : Bytes) × (load path d old ≡ err e)
  unfolding image
  load_torn path d p missing old file joined lacks long =
      elim (front_cases (le_bytes 4 snapshot_magic) p missing _ joined) [
        | inl short ↦ absurd (omega (arith, length-le_bytes 4 snapshot_magic))
        | inr (p₁, e₁, j₁) ↦
            let (e, refused) = load_metadata_torn p₁ missing j₁ lacks in
            (e, load_file-magic path d p₁ old (file ∙ ap some e₁) ∙ refused)
      ]
