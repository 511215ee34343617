-- ===== src/Persistence/Files.antt =====
-- `load`, `snapshot` and `truncate` of src/persistence/persistence.rs: the files on the disk, and the
-- store in memory.
use stupid_kv.Base.{
  ℕ, zero, suc, Bool, Option, none, some, List, [], ◌∷◌, ◌++◌, Bytes, bytes_ord, nat_ord, Result,
  ok, err, ltb, ◌==◌, if◌then◌else◌, length, take, drop, Codec, got, eof, broken, encode_all,
  Crates,
}
use stupid_kv.Base.BTreeMap.{BTreeMap}
use stupid_kv.Base.SkipMap
use stupid_kv.Compression.{CompressionMode, write_compressed, read_compressed}
use stupid_kv.Versions.{all_versions, Versions, Version, push, from}
use stupid_kv.Persistence.{PersistenceError, io, deserialization, LogEntry, Aol, Persistence}

-- An entry of a snapshot: a key and its versions.
abbrev pub ChainEntry : Type 0
ChainEntry = Bytes × List (ℕ × Option Bytes)

-- The loop of a reader: entries until the end of the file. The first number bounds the rounds.
unfoldable pub decode_loop :
    {A S : Type 0}
    → Codec A
    → (S → A → S)
    → ℕ
    → Bytes
    → Bool
    → S
    → S × Result PersistenceError (Unit {0})
decode_loop codec step zero bytes whole state = (state, ok tt)
decode_loop codec step (suc fuel) bytes whole state = elim (Codec.decode codec bytes) [
  | got a rest ↦ decode_loop codec step fuel rest whole (step state a)
  | eof ↦ (state, if whole then ok tt else err deserialization)
  | broken ↦ (state, err deserialization)
]

unfoldable pub push_all : Versions → List (ℕ × Option Bytes) → Versions
push_all vs [] = vs
push_all vs ((version, value) ∷ rest) =
    push_all (push vs (record { version = version; value = value })) rest

module _ ⦃c : Crates⦄ where
  abbrev Store : Type 0
  Store = c.SkipMap Bytes Versions

  abbrev pub Loaded : Type 0
  Loaded = Store × Result PersistenceError (Unit {0})

  -- One entry of the snapshot, and one of the log.
  unfoldable pub load_chain : Store → ChainEntry → Store
  unfolding push_all
  load_chain ds (k, []) = ds
  load_chain ds (k, v ∷ vs) = SkipMap.insert ds k (push_all [] (v ∷ vs))

  unfoldable pub load_write : Store → LogEntry → Store
  load_write ds (k, version, value) =
      let v : Version = record { version = version; value = value } in
      elim (SkipMap.get ds k) [
        | some vs ↦ SkipMap.insert ds k (push vs v)
        | none ↦ SkipMap.insert ds k (from v)
      ]

  -- A file that is there and not empty is read to its end.
  unfoldable pub load_file :
      {A : Type 0} → Codec A → (Store → A → Store) → Option Bytes → Store → Loaded
  unfolding decode_loop
  load_file codec step none ds = (ds, ok tt)
  load_file codec step (some []) ds = (ds, ok tt)
  load_file codec step (some (x ∷ xs)) ds = elim (read_compressed (x ∷ xs)) [
    | none ↦ (ds, err io)
    | some (bytes, whole) ↦ decode_loop codec step (suc (length bytes)) bytes whole ds
  ]

  -- The second phase, after the snapshot; `failed` is an error of opening the log.
  unfoldable pub replay_aol : Option PersistenceError → Option Bytes → Loaded → Loaded
  unfolding load_file load_write
  replay_aol failed aol (ds, err e) = (ds, err e)
  replay_aol failed aol (ds, ok u) = elim failed [
    | some e ↦ (ds, err e)
    | none ↦ load_file c.write_codec load_write aol ds
  ]

  -- The snapshot and then the log; an error of opening one of them ends the loading.
  unfoldable pub load :
      Option PersistenceError
      → Option Bytes
      → Option PersistenceError
      → Option Bytes
      → Store
      → Loaded
  unfolding load_file load_chain replay_aol
  load (some e) snapshot failed aol ds = (ds, err e)
  load none snapshot failed aol ds =
      replay_aol failed aol (load_file c.chain_codec load_chain snapshot ds)

  -- The entries of a snapshot: the keys in order, with the chains that are not empty.
  unfoldable pub snapshot_entries : BTreeMap Bytes Versions → List ChainEntry
  unfolding all_versions
  snapshot_entries [] = []
  snapshot_entries ((k, []) ∷ m) = snapshot_entries m
  snapshot_entries ((k, v ∷ vs) ∷ m) = (k, all_versions (v ∷ vs)) ∷ snapshot_entries m

  unfoldable pub snapshot_contents : CompressionMode → Store → Bytes
  unfolding snapshot_entries write_compressed
  snapshot_contents mode ds =
      write_compressed mode (encode_all c.chain_codec (snapshot_entries (SkipMap.iter ds)))

-- The files beside the log.
pub record Files : Type 0 where
  pub snapshot : Option Bytes
  pub temp : Option Bytes

-- What the system does in one truncation: whether the lock is poisoned, and whether the copy of
-- the tail, or `set_len`, fails, and how many bytes are copied then.
pub record Truncating : Type 0 where
  pub lock : Option PersistenceError
  pub failed : Option PersistenceError
  pub copied : ℕ

-- The tail is copied to the end of the file, which is opened for appending.
unfoldable pub cut_log : ℕ → Truncating → Aol → Aol × Result PersistenceError (Unit {0})
cut_log position t file =
    let tail = drop position file.contents in
    if ltb position (length file.contents)
    then elim t.failed [
      | none ↦ (record file { contents = file.contents ++ tail }, ok tt)
      | some e ↦ (record file { contents = file.contents ++ take t.copied tail }, err e)
    ]
    else elim t.failed [
      | none ↦ (record { contents = []; synced = 0 }, ok tt)
      | some e ↦ (file, err e)
    ]

-- The end of `Self::truncate`: at the position 0 the waiting synchronisations are forgotten.
unfoldable pub settle :
    ℕ
    → Persistence
    → Aol × Result PersistenceError (Unit {0})
    → Persistence × Result PersistenceError (Unit {0})
settle position p (file, err e) = (record p { aol = some file }, err e)
settle position p (file, ok u) = (
  record p { aol = some file; pending_syncs = if position == 0 then 0 else p.pending_syncs },
  ok tt,
)

-- `Self::truncate`.
unfoldable pub truncate :
    ℕ → Truncating → Persistence → Persistence × Result PersistenceError (Unit {0})
unfolding cut_log settle
truncate position t p = elim p.aol [
  | none ↦ (p, ok tt)
  | some file ↦ elim t.lock [
    | some e ↦ (p, err e)
    | none ↦ settle position p (cut_log position t file)
  ]
]

-- A failure before the renaming: its error, and how many bytes of the new snapshot are in the
-- temporary file then, `none` where the file could not be made.
pub record Unsaved : Type 0 where
  pub error : PersistenceError
  pub written : Option ℕ

-- What the system does in one snapshot: the first failure up to the renaming; a failure of the
-- synchronisation after it; the truncation; and whether it can remove a temporary file.
pub record Saving : Type 0 where
  pub before : Option Unsaved
  pub sync : Option PersistenceError
  pub truncating : Truncating
  pub removes : Bool

abbrev pub aol_len : Option Aol → ℕ
aol_len none = 0
aol_len (some file) = length file.contents

module _ ⦃c : Crates⦄ where
  abbrev pub Saved : Type 0
  Saved = Files × Persistence × Result PersistenceError (Unit {0})

  -- From the renaming on.
  unfoldable pub publish_snapshot : Bytes → ℕ → Saving → Files → Persistence → Saved
  unfolding truncate
  publish_snapshot contents position s files p =
      let files' : Files = record { snapshot = some contents; temp = none } in
      elim s.sync [
        | some e ↦ (files', p, err e)
        | none ↦ let (p', result) = truncate position s.truncating p in (files', p', result)
      ]

  -- The temporary file where the saving fails before the renaming.
  abbrev pub temp_left : Unsaved → Bytes → Files → Option Bytes
  temp_left u contents files = elim u.written [
    | none ↦ files.temp
    | some n ↦ some (take n contents)
  ]

  -- The closure of `Persistence::snapshot`, while nothing is appended.
  unfoldable pub save :
      CompressionMode → c.SkipMap Bytes Versions → Saving → Files → Persistence → Saved
  unfolding publish_snapshot snapshot_contents
  save mode ds s files p =
      let position = aol_len p.aol in
      let contents = snapshot_contents mode ds in
      elim s.before [
        | some u ↦ (record files { temp = temp_left u contents files }, p, err u.error)
        | none ↦ publish_snapshot contents position s files p
      ]

  -- After an error the temporary file is removed, if that can be done.
  unfoldable pub clean : Saving → Saved → Saved
  clean s (files, p, ok u) = (files, p, ok u)
  clean s (files, p, err e) =
      (record files { temp = if s.removes then none else files.temp }, p, err e)

  -- `Persistence::snapshot` while nothing is appended. The worker's round is the same.
  unfoldable pub snapshot :
      CompressionMode → c.SkipMap Bytes Versions → Saving → Files → Persistence → Saved
  unfolding save clean
  snapshot mode ds s files p = clean s (save mode ds s files p)
