-- ===== src/Persistence/Append.antt =====
-- What a synchronous `append` leaves in the log, on success and on each of its errors.
use stupid_kv.Base.{
  ℕ, ◌≡◌, refl, ap, map, ◌∷◌, subst, sym, Option, some, [], ◌++◌, Bytes, ok, err, Bool-cases,
  Option-cases, inl, inr, arith, leb, ◌-◌, length, drop, take, take-drop, append_nil, encode_all,
  Crates,
}
use stupid_kv.Base.BTreeMap.{BTreeMap}
use stupid_kv.Persistence.{
  LogEntry, Persistence, FsyncMode, Aol, Disk, Appended, synchronous_on_commit, append, append_mode,
  write_bytes, fsync, sync_all, log_entries,
}

-- After a success that the mode makes durable, the whole file is durable.
abbrev pub Durable : FsyncMode → Aol → Type 0
Durable FsyncMode.never file = Unit {0}
Durable FsyncMode.every_append file = file.synced ≡ length file.contents
Durable (FsyncMode.interval d) file = Unit {0}

-- The log after the bytes `es`: all of them on success, and else a part from their start.
abbrev pub Logged : FsyncMode → Aol → Bytes → Appended → Type 0
Logged mode file es (p, ok u) =
    (out : Aol) × (p.aol ≡ some out) × (out.contents ≡ file.contents ++ es) × Durable mode out
Logged mode file es (p, err e) =
    (out : Aol) × (added : Bytes) × (rest : Bytes) × (p.aol ≡ some out)
    × (out.contents ≡ file.contents ++ added)
    × (added ++ rest ≡ es)

module _ (p : Persistence) (file : Aol) (es : Bytes) (disk : Disk) where
  abbrev longer : Aol
  longer = record file { contents = file.contents ++ es }

  abbrev grown : Persistence
  grown = record p { aol = some longer }

  fsync-Logged : (mode : FsyncMode) → Logged mode file es (fsync mode grown longer disk)
  unfolding fsync sync_all
  fsync-Logged FsyncMode.never = (longer, refl, refl, tt)
  fsync-Logged FsyncMode.every_append = elim (Option-cases disk.sync) [
    | inl e ↦ rw (e, fsync) (record longer { synced = length longer.contents }, refl, refl, refl)
    | inr (x, e) ↦ rw (e, fsync) (longer, es, [], refl, refl, append_nil es)
  ]
  fsync-Logged (FsyncMode.interval d) = elim (Option-cases disk.clock_lock) [
    | inr (x, e) ↦ rw (e, fsync) (longer, es, [], refl, refl, append_nil es)
    | inl e ↦ elim (Bool-cases (leb d (disk.now - p.last_fsync))) [
      | inr early ↦ rw (e, early, fsync) (longer, refl, refl, tt)
      | inl due ↦ elim (Option-cases disk.sync) [
        | inl s ↦
            rw (e, due, s, fsync)
              (record longer { synced = length longer.contents }, refl, refl, tt)
        | inr (x, s) ↦ rw (e, due, s, fsync) (longer, es, [], refl, refl, append_nil es)
      ]
    ]
  ]

  write_bytes-Logged : p.aol ≡ some file → Logged p.fsync_mode file es (write_bytes p file es disk)
  unfolding write_bytes
  write_bytes-Logged at = elim (Option-cases disk.lock) [
    | inr (x, e) ↦ rw (e, write_bytes) (file, [], es, at, sym (append_nil file.contents), refl)
    | inl e ↦ elim (Option-cases disk.write) [
      | inr (x, w) ↦
          rw (e, w, write_bytes)
            (
              record file { contents = file.contents ++ take disk.reached es },
              take disk.reached es,
              drop disk.reached es,
              refl,
              refl,
              take-drop disk.reached es,
            )
      | inl w ↦ rw (e, w, write_bytes) (fsync-Logged p.fsync_mode)
    ]
  ]

-- The entry of the log for one key of a write set: the key, the version of the commit, and the value
-- or the deletion.
abbrev pub entry_for : ℕ → Bytes × Option Bytes → LogEntry
entry_for version (key, value) = (key, version, value)

log_entries-map :
    (version : ℕ) (writeset : BTreeMap Bytes (Option Bytes))
    → log_entries version writeset ≡ map (entry_for version) writeset
unfolding log_entries
log_entries-map version [] = refl
log_entries-map version ((k, v) ∷ rest) =
    ap (λ l. (k, version, v) ∷ l) (log_entries-map version rest)

-- The bytes of a write set in the log: the entries of its keys in their order, as bincode encodes
-- them.
abbrev pub log_bytes : ⦃c : Crates⦄ → ℕ → BTreeMap Bytes (Option Bytes) → Bytes
log_bytes ⦃c⦄ version writeset = encode_all c.write_codec (map (entry_for version) writeset)

-- A synchronous `append` to a log that is there: on success the file has the whole write set at
-- its end, for each key in their order the key, the version and the value or the deletion, as bincode
-- encodes them, and is durable as a whole under the mode that synchronises each append; on every
-- error, of a lock, of the writing or of the synchronisation, the file has a part of these bytes from
-- their start at its end, possibly none or all of them.
pub append-Logged :
    ⦃c : Crates⦄ (p : Persistence) (file : Aol) (version : ℕ)
    (writeset : BTreeMap Bytes (Option Bytes)) (disk : Disk)
    → p.aol ≡ some file
    → p.aol_mode ≡ synchronous_on_commit
    → Logged p.fsync_mode file (log_bytes version writeset) (append p version writeset disk)
unfolding append append_mode
append-Logged ⦃c⦄ p file version writeset disk at mode =
    let same : append p version writeset disk
        ≡ write_bytes p file (log_bytes version writeset) disk =
      ground (arith, at, mode, log_entries-map version writeset) in
    subst (Logged p.fsync_mode file (log_bytes version writeset)) (sym same)
      (write_bytes-Logged p file (log_bytes version writeset) disk at)
