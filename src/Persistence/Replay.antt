-- ===== src/Persistence/Replay.antt =====
-- What the store that `load` makes shows its readers.
use stupid_kv.Base.{
  ℕ, ◌≤◌, ◌≡◌, refl, sym, ap, subst, ◌∙◌, Option, List, [], ◌∷◌, ◌++◌, Bytes, bytes_ord, nat_ord,
  arith, eqb, leb, Bool-cases, if◌then◌else◌, Crates, Option-cases, inl, inr,
}
use stupid_kv.Base.BTreeMap.{BTreeMap, IsAscending, Above, get-Above}
use stupid_kv.Base.BTreeMap
use stupid_kv.Base.SkipMap
use stupid_kv.Versions.{all_versions, Versions, from}
use stupid_kv.Versions.Bounds.{fetch_version-from}
use stupid_kv.Queue.{Writeset}
use stupid_kv.Db.{Inner, Datastore}
use stupid_kv.Db.Chains.{stored, chain_read, stored-insert, ChainIsSorted, ChainAtMost}
use stupid_kv.Persistence.{LogEntry, log_entries}
use stupid_kv.Persistence.Files.{push_all, load_chain, load_write, snapshot_entries}
use stupid_kv.Tx.Commit.{store_writes}
use stupid_kv.Tx.Commit.Store.{
  IsBounded, IsBounded-mono, Writes, write_old, created-IsBounded, stored_missing, written, overlay,
  overlay_cons, stored-store_writes, store_writes-IsBounded,
}
use stupid_kv.Persistence.Chains.{
  rebuilt, chain_read-rebuilt, rebuilt-ChainIsSorted, rebuilt-ChainAtMost, absent_here, or_else,
  or_else-none,
}
use stupid_kv.Persistence.Decode.{fold_left, fold_left-append}

module _ ⦃c : Crates⦄ where
  -- The store of `load` from a snapshot of the entries.
  get-snapshot_entries :
      (m : BTreeMap Bytes Versions) (ds : Datastore) (j : Bytes)
      → IsAscending m
      → SkipMap.get (fold_left load_chain ds (snapshot_entries m)) j
        ≡ or_else (rebuilt (BTreeMap.get j m)) (SkipMap.get ds j)
  unfolding snapshot_entries load_chain BTreeMap.get
  get-snapshot_entries [] ds j s = refl
  get-snapshot_entries ((k, []) ∷ m) ds j s =
      get-snapshot_entries m ds j s.1 ∙ (elim (Bool-cases (eqb j k)) [
        | inl here ↦ rw (absent_here k m j s.0 here, here) refl
        | inr other ↦ rw other refl
      ])
  get-snapshot_entries ((k, v ∷ vs) ∷ m) ds j s =
      get-snapshot_entries m (SkipMap.insert ds k (push_all [] (all_versions (v ∷ vs)))) j s.1
      ∙ (elim (Bool-cases (eqb j k)) [
        | inl here ↦
            rw
              (
                absent_here k m j s.0 here,
                SkipMap.get-insert ds k (push_all [] (all_versions (v ∷ vs))) j,
                here,
              )
              refl
        | inr other ↦
            rw (SkipMap.get-insert ds k (push_all [] (all_versions (v ∷ vs))) j, other) refl
      ])

  abbrev empty_store : Datastore
  empty_store = c.empty Bytes Versions

  -- The store that a snapshot of the store makes of an empty one.
  abbrev pub restored : Datastore → Datastore
  restored ds = fold_left load_chain empty_store (snapshot_entries (SkipMap.iter ds))

  pub get-restored :
      (ds : Datastore) (j : Bytes) → SkipMap.get (restored ds) j ≡ rebuilt (SkipMap.get ds j)
  get-restored ds j =
      get-snapshot_entries (SkipMap.iter ds) empty_store j (SkipMap.iter-IsAscending ds)
      ∙ rw (SkipMap.get-iter ds j, c.get-empty Bytes Versions bytes_ord j)
          (or_else-none (rebuilt (SkipMap.get ds j)))

  -- Readers of the restored store see what readers of the store saw, at every snapshot.
  pub stored-restored :
      (b : ℕ) (ds : Datastore) (j : Bytes) (q : ℕ)
      → IsBounded b ds
      → stored (restored ds) j q ≡ stored ds j q
  unfolding stored
  stored-restored b ds j q v =
      ap (λ o. chain_read o q) (get-restored ds j)
      ∙ chain_read-rebuilt (SkipMap.get ds j) q (v.store.chains j)

  pub restored-IsBounded : (b : ℕ) (ds : Datastore) → IsBounded b ds → IsBounded b (restored ds)
  restored-IsBounded b ds v = record {
    store = record {
      chains = λ k.
          subst ChainIsSorted (sym (get-restored ds k)) (rebuilt-ChainIsSorted (SkipMap.get ds k));
    };
    at_most = λ k.
        subst (ChainAtMost b) (sym (get-restored ds k))
          (rebuilt-ChainAtMost b (SkipMap.get ds k) (v.at_most k));
  }

  -- One entry of the log does to the store what one write of a commit does.
  pub load_write-Writes :
      (b : ℕ) (k : Bytes) (value : Option Bytes) (ds : Datastore)
      → IsBounded b ds
      → Writes ds b k value (load_write ds (k, b, value))
  unfolding load_write
  load_write-Writes b k value ds v = elim (Option-cases (SkipMap.get ds k)) [
    | inr (vs, e) ↦ rw (e, load_write) (write_old ds b k value v vs e)
    | inl e ↦
        rw (e, load_write)
          (record {
            bounded = created-IsBounded ds b k value v;
            reads = λ j q. ground (
              arith,
              stored-insert ds k (from (written ds b k value v)) j q,
              fetch_version-from (written ds b k value v) q,
              stored_missing ds k j q e,
            );
          })
  ]

  -- The log of one commit.
  replay_commit :
      (b : ℕ) (ws : Writeset) (ds : Datastore) (j : Bytes) (q : ℕ)
      → IsAscending ws
      → IsBounded b ds
      → IsBounded b (fold_left load_write ds (log_entries b ws))
        × (stored (fold_left load_write ds (log_entries b ws)) j q
            ≡ (if leb b q then overlay ws j (stored ds j q) else stored ds j q))
  unfolding log_entries BTreeMap.get
  replay_commit b [] ds j q s v = (v, ground arith)
  replay_commit b ((k, value) ∷ ws) ds j q s v =
      let one = load_write-Writes b k value ds v in
      let (bounded, reads) = replay_commit b ws (load_write ds (k, b, value)) j q s.1 one.bounded in
      (bounded, reads ∙ (rw (one.reads j q) (overlay_cons k value ws j b q (stored ds j q) s.0)))

  -- Commits with their versions, the oldest first: as the store takes them, and as the log has
  -- them.
  abbrev pub Commits : Type 0
  Commits = List (ℕ × Writeset)

  abbrev pub store_commits : Inner → Commits → Inner
  store_commits db [] = db
  store_commits db ((v, ws) ∷ cs) = store_commits (store_writes db v ws) cs

  abbrev pub log_of : Commits → List LogEntry
  log_of [] = []
  log_of ((v, ws) ∷ cs) = log_entries v ws ++ log_of cs

  -- The versions do not fall, from the bound on, and each write set ascends.
  abbrev pub IsLog : ℕ → Commits → Type 0
  IsLog b [] = Unit {0}
  IsLog b ((v, ws) ∷ cs) = (b ≤ v) × IsAscending ws × IsLog v cs

  -- Two stores that look the same to every reader.
  abbrev pub Agrees : Datastore → Datastore → Type 0
  Agrees ds es = (j : Bytes) (q : ℕ) → stored ds j q ≡ stored es j q

  -- The last version of the commits.
  abbrev pub last_version : ℕ → Commits → ℕ
  last_version b [] = b
  last_version b ((v, ws) ∷ cs) = last_version v cs

  pub replay-IsBounded :
      (b : ℕ) (cs : Commits) (ds : Datastore)
      → IsLog b cs
      → IsBounded b ds
      → IsBounded (last_version b cs) (fold_left load_write ds (log_of cs))
  replay-IsBounded b [] ds l v = v
  replay-IsBounded b ((n, ws) ∷ cs) ds l v =
      rw (fold_left-append load_write ds (log_entries n ws) (log_of cs)) (
        replay-IsBounded n cs (fold_left load_write ds (log_entries n ws)) l.2
          (replay_commit n ws ds [] 0 l.1 (IsBounded-mono b n ds l.0 v)).0)

  pub replay-Agrees :
      (b : ℕ) (cs : Commits) (ds : Datastore) (db : Inner)
      → IsLog b cs
      → IsBounded b ds
      → IsBounded b db.datastore
      → Agrees ds db.datastore
      → Agrees (fold_left load_write ds (log_of cs)) (store_commits db cs).datastore
  replay-Agrees b [] ds db l v w same = same
  replay-Agrees b ((n, ws) ∷ cs) ds db l v w same =
      let v' = IsBounded-mono b n ds l.0 v in
      let w' = IsBounded-mono b n db.datastore l.0 w in
      let ds' = fold_left load_write ds (log_entries n ws) in
      subst (λ x. Agrees x (store_commits db ((n, ws) ∷ cs)).datastore)
        (sym (fold_left-append load_write ds (log_entries n ws) (log_of cs)))
        (replay-Agrees n cs ds' (store_writes db n ws) l.2 (replay_commit n ws ds [] 0 l.1 v').0
          (store_writes-IsBounded n ws db w')
          (λ j q.
            (replay_commit n ws ds j q l.1 v').1
            ∙ rw (same j q) (sym (stored-store_writes n ws db j q l.1 w'))))
