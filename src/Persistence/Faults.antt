-- ===== src/Persistence/Faults.antt =====
-- When `append` fails, read off the modes and the disk alone, without the file and its bytes.
use stupid_kv.Base.{
  ℕ, ◌-◌, take, ◌++◌, ◌≡◌, refl, Option, none, some, Result, ok, err, leb, if◌then◌else◌, arith,
  Crates,
}
use stupid_kv.Base.BTreeMap.{BTreeMap}
use stupid_kv.Base.{Bytes, nat_ord}
use stupid_kv.Persistence.{
  PersistenceError, AolMode, FsyncMode, Persistence, Aol, Disk, Appended, synchronous_on_commit,
  asynchronous_after_commit, append, append_mode, write_bytes, fsync, sync_all,
}

-- A commit writes no file, or it writes one with a way of synchronisation and the time of the last.
pub data Logging : Type 0 where
  silent : Logging
  writes : FsyncMode → ℕ → Logging

abbrev pub logging_by : Option Aol → AolMode → FsyncMode → ℕ → Logging
logging_by none mode f last = silent
logging_by (some file) AolMode.never f last = silent
logging_by (some file) asynchronous_after_commit f last = silent
logging_by (some file) synchronous_on_commit f last = writes f last

abbrev pub logging : Option Persistence → Logging
logging none = silent
logging (some p) = logging_by p.aol p.aol_mode p.fsync_mode p.last_fsync

-- The error of one synchronisation, which is tried at every append, never, or when it is due.
abbrev pub sync_fault : FsyncMode → ℕ → Disk → Option PersistenceError
sync_fault FsyncMode.never last disk = none
sync_fault FsyncMode.every_append last disk = disk.sync
sync_fault (FsyncMode.interval d) last disk = elim disk.clock_lock [
  | some e ↦ some e
  | none ↦ if leb d (disk.now - last) then disk.sync else none
]

abbrev pub sync_time : FsyncMode → ℕ → Disk → ℕ
sync_time FsyncMode.never last disk = last
sync_time FsyncMode.every_append last disk = last
sync_time (FsyncMode.interval d) last disk = elim disk.clock_lock [
  | some e ↦ last
  | none ↦ if leb d (disk.now - last) then disk.now else last
]

-- The error of one commit's log: of the lock, the writing, or the synchronisation, in this order.
abbrev pub fault : Logging → Disk → Option PersistenceError
fault silent disk = none
fault (writes f last) disk = elim disk.lock [
  | some e ↦ some e
  | none ↦ elim disk.write [ some e ↦ some e | none ↦ sync_fault f last disk ]
]

-- The logging of the next commit.
abbrev pub after : Logging → Disk → Logging
after silent disk = silent
after (writes f last) disk = elim disk.lock [
  | some e ↦ writes f last
  | none ↦ elim disk.write [ some e ↦ writes f last | none ↦ writes f (sync_time f last disk) ]
]

abbrev pub told : Option PersistenceError → Result PersistenceError (Unit {0})
told none = ok tt
told (some e) = err e

-- What an append answers, and what it leaves of the logging.
abbrev pub Told : Option PersistenceError → Logging → Appended → Type 0
Told e next (p, result) = (result ≡ told e) × (logging (some p) ≡ next)

module _ (p : Persistence) (file : Aol) (disk : Disk) (at : p.aol ≡ some file)
    (mode : p.aol_mode ≡ synchronous_on_commit) where
  fsync-Told :
      (f : FsyncMode)
      → p.fsync_mode ≡ f
      → Told
          (sync_fault f p.last_fsync disk)
          (writes f (sync_time f p.last_fsync disk))
          (fsync f p file disk)
  unfolding fsync sync_all
  fsync-Told FsyncMode.never h = ground (arith, at, mode, h)
  fsync-Told FsyncMode.every_append h = ground (arith, at, mode, h)
  fsync-Told (FsyncMode.interval d) h = ground (arith, at, mode, h)

write_bytes-Told :
    (p : Persistence) (file : Aol) (bytes : Bytes) (disk : Disk)
    → p.aol ≡ some file
    → p.aol_mode ≡ synchronous_on_commit
    → Told
        (fault (writes p.fsync_mode p.last_fsync) disk)
        (after (writes p.fsync_mode p.last_fsync) disk)
        (write_bytes p file bytes disk)
unfolding write_bytes
write_bytes-Told p file bytes disk at mode = by_steps disk.lock disk.write
  where
    longer : Aol
    longer = record file { contents = file.contents ++ bytes }

    by_steps :
        (lock write : Option PersistenceError)
        → Told
            (elim lock [
              | some e ↦ some e
              | none ↦ elim write [
                | some e ↦ some e
                | none ↦ sync_fault p.fsync_mode p.last_fsync disk
              ]
            ])
            (elim lock [
              | some e ↦ writes p.fsync_mode p.last_fsync
              | none ↦ elim write [
                | some e ↦ writes p.fsync_mode p.last_fsync
                | none ↦ writes p.fsync_mode (sync_time p.fsync_mode p.last_fsync disk)
              ]
            ])
            (elim lock [
              | some e ↦ (p, err e)
              | none ↦ elim write [
                | some e ↦ (
                  record p {
                    aol =
                        some (record file { contents = file.contents ++ take disk.reached bytes });
                  },
                  err e,
                )
                | none ↦ fsync p.fsync_mode (record p { aol = some longer }) longer disk
              ]
            ])
    by_steps (some e) write = ground (arith, at, mode)
    by_steps none (some e) = ground (arith, mode)
    by_steps none none =
        fsync-Told (record p { aol = some longer }) longer disk refl mode p.fsync_mode refl

module _ ⦃c : Crates⦄ (p : Persistence) (version : ℕ) (writeset : BTreeMap Bytes (Option Bytes))
    (disk : Disk) where
  -- The logging of a log that is there, by its mode.
  append_mode-Told :
      (file : Aol) (m : AolMode)
      → p.aol ≡ some file
      → p.aol_mode ≡ m
      → Told
          (fault (logging_by (some file) m p.fsync_mode p.last_fsync) disk)
          (after (logging_by (some file) m p.fsync_mode p.last_fsync) disk)
          (append_mode m p file version writeset disk)
  unfolding append_mode
  append_mode-Told file AolMode.never at mode = (refl, rw (at, mode) refl)
  append_mode-Told file asynchronous_after_commit at mode = (refl, rw (at, mode) refl)
  append_mode-Told file synchronous_on_commit at mode = write_bytes-Told p file _ disk at mode

  appended-Told :
      (o : Option Aol)
      → p.aol ≡ o
      → Told
          (fault (logging_by o p.aol_mode p.fsync_mode p.last_fsync) disk)
          (after (logging_by o p.aol_mode p.fsync_mode p.last_fsync) disk)
          (elim o [
            | none ↦ (p, ok tt)
            | some file ↦ append_mode p.aol_mode p file version writeset disk
          ])
  appended-Told none at = (refl, rw at refl)
  appended-Told (some file) at = append_mode-Told file p.aol_mode at refl

  pub append-Told :
      Told
        (fault (logging (some p)) disk)
        (after (logging (some p)) disk)
        (append p version writeset disk)
  unfolding append
  append-Told = appended-Told p.aol refl
