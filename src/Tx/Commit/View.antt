-- ===== src/Tx/Commit/View.antt =====
-- The database as one map from keys to values, and a commit as one update of that map.
use stupid_kv.Base.{
  ℕ, suc, List, ◌+◌, ◌^◌, ◌<◌, ◌≤◌, ◌≡◌, refl, sym, ap, subst, ◌∙◌, Bool, true, false, Option, none,
  some, [], ◌∷◌, Bytes, bytes_ord, arith, leb, if◌then◌else◌, any, ◌&&◌, Result, ok, err, Crates,
  Option-cases, inl, inr,
}
use stupid_kv.Base.BTreeMap.{keys, IsAscending}
use stupid_kv.Base.BTreeMap
use stupid_kv.Base.SkipMap
use stupid_kv.Versions.{Versions}
use stupid_kv.Versions.Order.{latest}
use stupid_kv.Versions.Read.{fetch_version-eq}
use stupid_kv.Versions.Bounds.{AtMost}
use stupid_kv.Queue.{Writeset, Commit}
use stupid_kv.Queue.Keys.{overlap}
use stupid_kv.Persistence.{Persistence, Disk, append}
use stupid_kv.Db.{Inner, Datastore}
use stupid_kv.Db.Chains.{ChainAtMost, stored, ChainIsSorted}
use stupid_kv.Tx.{
  TransactionInner, Error, key_write_conflict, key_read_conflict, tx_commit_not_persisted,
  fetch_in_datastore, is_serializable,
}
use stupid_kv.Tx.Reads.{fetch_in_datastore-stored}
use stupid_kv.Queue.Disjoint.{IsReadset}
use stupid_kv.Tx.Commit.{Committed, commit, commit_result}
use stupid_kv.Tx.Commit.Conflict.{shared}
use stupid_kv.Tx.Commit.Store.{IsBounded, overlay}
use stupid_kv.Tx.Commit.Stages.{IsDb, Merged, log_result}
use stupid_kv.Tx.Commit.Entered.{own_entry}
use stupid_kv.Tx.Commit.Outcome.{
  Outcome, commit-Outcome, was_closed, nothing_written, conflicted, applied,
}

latest-newest :
    (b q : ℕ) (d : Option Bytes) (vs : Versions)
    → AtMost b vs
    → b ≤ q
    → latest d vs q ≡ latest d vs b
unfolding latest
latest-newest b q d [] m h = refl
latest-newest b q d (x ∷ xs) m h = ground (arith, latest-newest b q x.value xs m.1 h)

module _ ⦃c : Crates⦄ where
  -- What a transaction that begins now would read.
  unfoldable pub view : Inner → Bytes → Option Bytes
  view db k = fetch_in_datastore db k db.oracle.timestamp

  -- Above the greatest version there is nothing more to see.
  pub stored-newest :
      (b q : ℕ) (ds : Datastore) (k : Bytes)
      → IsBounded b ds
      → b ≤ q
      → stored ds k q ≡ stored ds k b
  unfolding stored
  stored-newest b q ds k v h = elim (Option-cases (SkipMap.get ds k)) [
    | inl e ↦ rw e refl
    | inr (vs, e) ↦
        let s = subst ChainIsSorted e (v.store.chains k) in
        let m = subst (ChainAtMost b) e (v.at_most k) in
        rw (e, fetch_version-eq vs q s, fetch_version-eq vs b s) (latest-newest b q none vs m h)
  ]

  -- The results after which the writes are there: a failure of the log comes too late.
  abbrev pub takes_effect : Result Error (Unit {0}) → Bool
  takes_effect (ok u) = true
  takes_effect (err (tx_commit_not_persisted e)) = true
  takes_effect (err _) = false

  pub takes_effect-log_result :
      (p : Option Persistence) (version : ℕ) (ws : Writeset) (disk : Disk)
      → takes_effect (log_result p version ws disk) ≡ true
  takes_effect-log_result none version ws disk = refl
  takes_effect-log_result (some p) version ws disk = result (append p version ws disk).1
    where
      result : (r : Result _ (Unit {0})) → takes_effect (commit_result r) ≡ true
      result (ok u) = refl
      result (err e) = refl

  pub shared-rejects :
      (tx : TransactionInner) (entry t : Commit) (e : Error)
      → shared tx entry t ≡ some e
      → takes_effect (err e) ≡ false
  shared-rejects tx entry t e h =
      either (overlap (keys t.writeset) (keys entry.writeset))
        (is_serializable tx.mode && any (c.contains tx.readset) (keys t.writeset)) h
    where
      either :
          (a b : Bool)
          → (if a then some key_write_conflict else if b then some key_read_conflict else none)
            ≡ some e
          → takes_effect (err e) ≡ false
      either true b h =
          let same : key_write_conflict ≡ e = ground (arith, h) in
          subst (λ (x : Error). takes_effect (err x) ≡ false) same refl
      either false true h =
          let same : key_read_conflict ≡ e = ground (arith, h) in
          subst (λ (x : Error). takes_effect (err x) ≡ false) same refl
      either false false h = cc

  pub view-applied :
      (db out : Inner) (ws : Writeset) (k : Bytes)
      → IsDb db
      → Merged db ws out
      → view out k ≡ overlay ws k (view db k)
  unfolding view
  view-applied db out ws k v m =
      let now = out.oracle.timestamp in
      let before = db.oracle.timestamp in
      let visible : leb m.version now ≡ true = rw m.clock (ground arith) in
      let later : before ≤ now = ground (arith, m.newer, m.clock) in
      fetch_in_datastore-stored out k now m.kept.quiet
      ∙ m.reads k now
      ∙ chosen (leb m.version now) (overlay ws k (stored db.datastore k now))
          (stored db.datastore k now) visible
      ∙ ap (overlay ws k) (
          stored-newest before now db.datastore k v.bounded later
          ∙ sym (fetch_in_datastore-stored db k before v.quiet))
    where
      chosen : (b : Bool) (x y : Option Bytes) → b ≡ true → (if b then x else y) ≡ x
      chosen b x y h = rw h refl

  -- The same of each outcome.
  pub snapshot_outcome :
      (disk : Disk) (db : Inner) (tx : TransactionInner) (out : Committed) (k : Bytes) (q : ℕ)
      → IsDb db
      → Outcome disk db tx out
      → q ≤ db.oracle.timestamp
      → fetch_in_datastore out.1 k q ≡ fetch_in_datastore db k q
  snapshot_outcome disk db tx out k q v (was_closed d e) h = rw e refl
  snapshot_outcome disk db tx out k q v (nothing_written d w e) h = rw e refl
  snapshot_outcome disk db tx out k q v (conflicted e d c r s o i l) h =
      rw (fetch_in_datastore-stored db k q v.quiet, fetch_in_datastore-stored out.1 k q i.quiet)
        (ap (λ ds. stored ds k q) s)
  snapshot_outcome disk db tx out k q v (applied d c m r p l) h =
      rw
        (fetch_in_datastore-stored db k q v.quiet, fetch_in_datastore-stored out.1 k q m.kept.quiet)
        (ground (arith, m.reads k q, m.newer))

  pub view_outcome :
      (disk : Disk) (db : Inner) (tx : TransactionInner) (out : Committed) (k : Bytes)
      → IsDb db
      → Outcome disk db tx out
      → view out.1 k ≡ (if takes_effect out.0 then overlay tx.writeset k (view db k) else view db k)
  unfolding view BTreeMap.get
  view_outcome disk db tx out k v (was_closed d e) = rw e refl
  view_outcome disk db tx out k v (nothing_written d w e) = rw (e, w) refl
  view_outcome disk db tx out k v (conflicted e d (q, t, h, same) r s o i l) =
      let rejected : takes_effect out.0 ≡ false =
        rw r (shared-rejects tx (own_entry db tx) t e same) in
      rw rejected (
        fetch_in_datastore-stored out.1 k out.1.oracle.timestamp i.quiet
        ∙ rw (s, o) refl
        ∙ sym (fetch_in_datastore-stored db k db.oracle.timestamp v.quiet))
  view_outcome disk db tx out k v (applied d f m r p l) =
      rw (r, takes_effect-log_result db.persistence m.version tx.writeset disk)
        (view-applied db out.1 tx.writeset k v m)

  module _ (disk : Disk) (db : Inner) (tx : TransactionInner) (v : IsDb db)
      (s : IsAscending tx.writeset) (readset : IsReadset tx.readset tx.readset_bloom)
      (room : db.transaction_commit_id + 1 < 2 ^ 64) (ticks : db.oracle.timestamp + 1 < 2 ^ 64)
      (rounds instant : ℕ) (instants : List ℕ) (out : Committed)
      (returned : commit (suc rounds) (instant ∷ instants) disk db tx ≡ some out) where
    outcome : Outcome disk db tx out
    outcome =
        let (found, same, o) =
          commit-Outcome disk db tx v s readset room ticks rounds instant instants in
        let one : found ≡ out = ground (arith, same, returned) in subst (Outcome disk db tx) one o

    -- Under the conditions of `commit-Outcome`, a reader whose snapshot is at most the
    -- timestamp from before the commit reads of every key after it what it read before,
    -- whatever the commit returns.
    pub commit-snapshot :
        (k : Bytes) (q : ℕ)
        → q ≤ db.oracle.timestamp
        → fetch_in_datastore out.1 k q ≡ fetch_in_datastore db k q
    commit-snapshot k q h = snapshot_outcome disk db tx out k q v outcome h

    -- Under the conditions of `commit-Outcome`, what a transaction that begins after the
    -- commit reads is the map from before with the write set laid over it, its deletions
    -- included, where the result is `Ok` or `TxCommitNotPersisted`, and the map from before
    -- where it is any other error.
    pub view-commit :
        (k : Bytes)
        → view out.1 k
          ≡ (if takes_effect out.0 then overlay tx.writeset k (view db k) else view db k)
    view-commit k = view_outcome disk db tx out k v outcome
