-- ===== src/Persistence.antt =====
-- src/error/persistence_error.rs, the modes of src/options/persistence_options.rs, and `append` of
-- src/persistence/persistence.rs. The append-only log is a file of bytes, to which each entry is
-- written as bincode encodes it.
pub mod Append
pub mod Files
pub mod Chains
pub mod Decode
pub mod Replay
pub mod Recovery
pub mod Entries
pub mod Heights
pub mod Torn
pub mod Again
pub mod Faults
pub mod Workers
pub mod Drain
pub mod Safety
use stupid_kv.Base.{
  ℕ, zero, suc, ◌-◌, Option, none, some, List, [], ◌∷◌, ◌++◌, Bytes, Result, ok, err, leb, take,
  if◌then◌else◌, length, add_u64, encode_all, Crates,
}
use stupid_kv.Base.BTreeMap.{BTreeMap}

pub data PersistenceError : Type 0 where
  io serialization deserialization lock_failed : PersistenceError

pub data AolMode : Type 0 where
  never synchronous_on_commit asynchronous_after_commit : AolMode

pub data FsyncMode : Type 0 where
  never every_append : FsyncMode
  interval : ℕ → FsyncMode

-- One entry of the log: the key, the version and the value.
abbrev pub LogEntry : Type 0
LogEntry = Bytes × ℕ × Option Bytes

pub record AsyncAppendOperation : Type 0 where
  pub version : ℕ
  pub writeset : BTreeMap Bytes (Option Bytes)

-- The log file: its contents, and how many bytes of them the last `sync_all` has made durable.
pub record Aol : Type 0 where
  pub contents : Bytes
  pub synced : ℕ

pub record Persistence : Type 0 where
  pub aol : Option Aol
  pub aol_mode : AolMode
  pub fsync_mode : FsyncMode
  pub last_fsync : ℕ
  pub pending_syncs : ℕ
  pub async_append_injector : List AsyncAppendOperation

-- What the system does in one call of `append`: whether the lock of the file is poisoned, whether
-- the writing fails and how many bytes have reached the file then, whether the lock of
-- `last_fsync` is poisoned, whether `sync_all` fails, and the time.
pub record Disk : Type 0 where
  pub lock : Option PersistenceError
  pub write : Option PersistenceError
  pub reached : ℕ
  pub clock_lock : Option PersistenceError
  pub sync : Option PersistenceError
  pub now : ℕ

unfoldable pub log_entries : ℕ → BTreeMap Bytes (Option Bytes) → List LogEntry
log_entries version [] = []
log_entries version ((k, v) ∷ w) = (k, version, v) ∷ log_entries version w

abbrev pub Appended : Type 0
Appended = Persistence × Result PersistenceError (Unit {0})

-- `file.sync_all()?`, with what is done after it.
unfoldable pub sync_all : Persistence → Aol → Disk → (Persistence → Persistence) → Appended
sync_all p file disk done = elim disk.sync [
  | none ↦ (done (record p { aol = some (record file { synced = length file.contents }) }), ok tt)
  | some e ↦ (p, err e)
]

-- The synchronisation after the entries are written, by the mode.
unfoldable pub fsync : FsyncMode → Persistence → Aol → Disk → Appended
unfolding sync_all
fsync FsyncMode.never p file disk = (record p { pending_syncs = add_u64 p.pending_syncs 1 }, ok tt)
fsync FsyncMode.every_append p file disk = sync_all p file disk (λ q. q)
fsync (FsyncMode.interval duration) p file disk = elim disk.clock_lock [
  | some e ↦ (p, err e)
  | none ↦
      if leb duration (disk.now - p.last_fsync)
      then sync_all (record p { last_fsync = disk.now }) file disk
          (λ q. record q { pending_syncs = 0 })
      else (record p { pending_syncs = add_u64 p.pending_syncs 1 }, ok tt)
]

-- The bytes are written under the lock; when the writing fails some of them may be in the file.
unfoldable pub write_bytes : Persistence → Aol → Bytes → Disk → Appended
unfolding fsync
write_bytes p file bytes disk = elim disk.lock [
  | some e ↦ (p, err e)
  | none ↦ elim disk.write [
    | some e ↦ (
      record p { aol = some (record file { contents = file.contents ++ take disk.reached bytes }) },
      err e,
    )
    | none ↦
        let written = record file { contents = file.contents ++ bytes } in
        fsync p.fsync_mode (record p { aol = some written }) written disk
  ]
]

module _ ⦃c : Crates⦄ where
  unfoldable pub append_mode :
      AolMode → Persistence → Aol → ℕ → BTreeMap Bytes (Option Bytes) → Disk → Appended
  unfolding write_bytes log_entries
  append_mode AolMode.never p file version writeset disk = (p, ok tt)
  append_mode asynchronous_after_commit p file version writeset disk = (
    record p {
      async_append_injector =
          p.async_append_injector ++ record { version = version; writeset = writeset } ∷ [];
    },
    ok tt,
  )
  append_mode synchronous_on_commit p file version writeset disk =
      write_bytes p file (encode_all c.write_codec (log_entries version writeset)) disk

  unfoldable pub append : Persistence → ℕ → BTreeMap Bytes (Option Bytes) → Disk → Appended
  unfolding append_mode
  append p version writeset disk = elim p.aol [
    | none ↦ (p, ok tt)
    | some file ↦ append_mode p.aol_mode p file version writeset disk
  ]
