-- ===== src/Persistence/Workers.antt =====
-- The background threads of src/persistence/persistence.rs, round by round, and its `Drop`.
use stupid_kv.Base.{
  ℕ, zero, suc, Bool, true, false, not, ◌&&◌, none, some, List, [], ◌∷◌, ◌++◌, nat_ord, ltb,
  if◌then◌else◌, length, encode_all, Crates,
}
use stupid_kv.Persistence.{
  Persistence, AsyncAppendOperation, LogEntry, AolMode, Disk, log_entries, write_bytes,
}

abbrev pub batch_size : ℕ
batch_size = 100

-- The inner loop of the append worker: operations are taken until the batch is full or the queue is
-- empty. The number counts the free places of the batch.
unfoldable pub steal_batch :
    ℕ → List AsyncAppendOperation → List AsyncAppendOperation × List AsyncAppendOperation
steal_batch zero queue = ([], queue)
steal_batch (suc room) [] = ([], [])
steal_batch (suc room) (op ∷ queue) =
    let (batch, rest) = steal_batch room queue in (op ∷ batch, rest)

-- The entries of a batch, operation by operation.
unfoldable pub batch_entries : List AsyncAppendOperation → List LogEntry
batch_entries [] = []
batch_entries (op ∷ ops) = log_entries op.version op.writeset ++ batch_entries ops

module _ ⦃c : Crates⦄ where
  -- The writing of a batch. A poisoned lock of the file leaves the batch unwritten; an error is
  -- logged, and the batch is not tried again.
  unfoldable pub write_batch : Persistence → List AsyncAppendOperation → Disk → Persistence
  unfolding batch_entries
  write_batch p [] disk = p
  write_batch p (op ∷ ops) disk = elim p.aol [
    | none ↦ p
    | some file ↦ (write_bytes p file (encode_all c.write_codec (batch_entries (op ∷ ops))) disk).0
  ]

  -- One round of the append worker while it is enabled.
  unfoldable pub append_round : Persistence → Disk → Persistence
  unfolding steal_batch write_batch
  append_round p disk =
      let (batch, rest) = steal_batch batch_size p.async_append_injector in
      write_batch (record p { async_append_injector = rest }) batch disk

  -- The rounds of the worker, one for each state of the disk.
  unfoldable pub append_rounds : List Disk → Persistence → Persistence
  append_rounds [] p = p
  append_rounds (disk ∷ disks) p = append_rounds disks (append_round p disk)

-- One round of the fsync worker: `lock` says whether the lock of the file is poisoned, `failed`
-- whether `sync_all` fails.
unfoldable pub fsync_round : Persistence → Bool → Bool → Persistence
fsync_round p lock failed = elim p.aol [
  | none ↦ p
  | some file ↦
      if ltb 0 p.pending_syncs && not lock && not failed
      then record p {
        aol = some (record file { synced = length file.contents });
        pending_syncs = 0;
      }
      else p
]

abbrev is_never : AolMode → Bool
is_never AolMode.never = true
is_never AolMode.synchronous_on_commit = false
is_never AolMode.asynchronous_after_commit = false

-- The end of `Drop`, when the threads are gone: the last `sync_all`. What is still in the queue of
-- the append worker stays there.
unfoldable pub final_sync : Persistence → Bool → Bool → Persistence
final_sync p lock failed = elim p.aol [
  | none ↦ p
  | some file ↦
      if not (is_never p.aol_mode) && ltb 0 p.pending_syncs && not lock && not failed
      then record p { aol = some (record file { synced = length file.contents }) }
      else p
]
