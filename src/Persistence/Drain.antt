-- ===== src/Persistence/Drain.antt =====
-- The append worker empties its queue into the log.
use stupid_kv.Base.{◌≡◌, none, some, List, [], ◌∷◌, ◌++◌, Bytes, nat_ord, encode_all, Crates}
use stupid_kv.Persistence.{Persistence, AsyncAppendOperation, Aol, Disk}
use stupid_kv.Persistence.Workers.{batch_entries}

-- A synchronisation changes neither the bytes of the log nor the queue, whatever it returns.
abbrev Kept : Persistence → Aol → Persistence → Type 0
Kept p file out =
    (after : Aol) × (out.aol ≡ some after)
    × (after.contents ≡ file.contents)
    × (out.async_append_injector ≡ p.async_append_injector)
    × (out.fsync_mode ≡ p.fsync_mode)

-- A disk on which the log can be written; the synchronisation may fail.
abbrev pub IsWritable : Disk → Type 0
IsWritable disk = (disk.lock ≡ none) × (disk.write ≡ none)

abbrev pub AllWritable : List Disk → Type 0
AllWritable [] = Unit {0}
AllWritable (disk ∷ disks) = IsWritable disk × AllWritable disks

module _ ⦃c : Crates⦄ where
  -- What is in the log and what waits in the queue, as bytes.
  abbrev pub pending_bytes : List AsyncAppendOperation → Bytes
  pending_bytes ops = encode_all c.write_codec (batch_entries ops)

  -- The worker moves bytes from the queue to the log.
  abbrev Moves : Persistence → Aol → Bytes → List AsyncAppendOperation → Persistence → Type 0
  Moves p file bytes queue out =
      (after : Aol) × (out.aol ≡ some after)
      × (after.contents ≡ file.contents ++ bytes)
      × (out.async_append_injector ≡ queue)
