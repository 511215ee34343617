-- ===== src/System/Serial.antt =====
-- A commit that takes effect read and wrote as if it had run alone at the moment of its commit.
use stupid_kv.Base.{
  ℕ, suc, ◌+◌, ◌^◌, ◌<◌, ◌≡◌, ◌≢◌, refl, sym, ap, subst, ◌∙◌, some, List, [], ◌∷◌, ◌++◌, inl, inr,
  bytes_ord, nat_ord, arith, Crates, none, Bytes, Bool, true, false, ◌||◌, ◌&&◌, any, add_u64,
  Bool-cases,
}
use stupid_kv.Base.SkipMap
use stupid_kv.Queue.{Commit, contains_key}
use stupid_kv.Queue.Keys.{overlap, any-false, contains_key-eq}
use stupid_kv.Base.BTreeMap.{keys}
use stupid_kv.Bloom.Contains.{elem}
use stupid_kv.Persistence.{Disk}
use stupid_kv.Db.{Inner}
use stupid_kv.Tx.{TransactionInner, fetch_in_datastore, is_serializable}
use stupid_kv.Tx.Commit.{Committed, commit, commit_entry}
use stupid_kv.Tx.Commit.Conflict.{shared, Hit}
use stupid_kv.Tx.Commit.Entered.{own_entry}
use stupid_kv.Tx.Commit.Outcome.{Outcome, was_closed, nothing_written, conflicted, applied}
use stupid_kv.Tx.Commit.View.{view, takes_effect, shared-rejects}
use stupid_kv.System.{System, Step, begins, operates, commits, drops, collects, cleans}
use stupid_kv.System.Handles.{IsHandle, All, All-at, All-replace, All-remove, All-map, All-zip}
use stupid_kv.System.Operations.{Operation-Handled}
use stupid_kv.System.Invariant.{Agree, IsConsistent}
use stupid_kv.System.Calls.{own-IsHandle, begin-Begun, commit_outcome, outcome-Handled, drop-lives}
use stupid_kv.System.Steps.{
  Step-IsConsistent, Run-IsConsistent, Run, rests, steps, started, started-IsConsistent,
}
use stupid_kv.System.Snapshots.{Dropped-frame}
use stupid_kv.System.Current.{
  Unseen, IsCurrent, fresh-IsCurrent, frame-IsCurrent, moved-IsCurrent, outcome-IsCurrent,
}
use stupid_kv.System.Collected.{collected-IsCurrent, cleaned-IsCurrent}

module _ ⦃c : Crates⦄ where
  -- Every call keeps the handles current.
  pub Step-IsCurrent :
      (s t : System)
      → Step s t
      → IsConsistent s
      → All (IsCurrent s.db) s.handles
      → All (IsCurrent t.db) t.handles
  Step-IsCurrent s t (begins _ write tx pool db got few) v all =
      let b = begin-Begun s.pool pool s.db db write tx s.handles v few got in
      (
        frame-IsCurrent s.db db tx b.frame (fresh-IsCurrent s.db tx b.version),
        All-map (IsCurrent s.db) _ s.handles (λ x h. frame-IsCurrent s.db db x b.frame h) all,
      )
  Step-IsCurrent s t (operates _ l r tx tx' at op) v all =
      let w = subst (λ x. Agree s.db x) at v in
      let own = subst (λ x. All (IsCurrent s.db) x) at all in
      let h =
        Operation-Handled s.db.oracle.timestamp s.db.transaction_commit_id tx
          (All-at (IsHandle s.db.oracle.timestamp s.db.transaction_commit_id) l r tx w.each) s.db
          tx' op in
      All-replace (IsCurrent s.db) l r tx tx'
        (moved-IsCurrent s.db tx tx' h.version h.commit (All-at (IsCurrent s.db) l r tx own)) own
  Step-IsCurrent s t
        (commits _ l r tx tx' rounds instant instants disk result db at done room ticks) v all =
      let w = subst (λ x. Agree s.db x) at v in
      let own = subst (λ x. All (IsCurrent s.db) x) at all in
      let o =
        commit_outcome l r tx s.db w rounds instant instants disk (result, db, tx') done room
          ticks in
      let h = outcome-Handled l r tx s.db w disk (result, db, tx') o in
      let after =
        All-map _ (IsCurrent db) (l ++ tx ∷ r)
          (λ (x : TransactionInner)
              (p : IsHandle s.db.oracle.timestamp s.db.transaction_commit_id x × IsCurrent s.db x).
            outcome-IsCurrent disk s.db tx x (result, db, tx') v.database room p.0.snapshot
              p.0.start o p.1)
          (All-zip _ _ (l ++ tx ∷ r) w.each own) in
      All-replace (IsCurrent db) l r tx tx'
        (moved-IsCurrent db tx tx' h.version h.commit (All-at (IsCurrent db) l r tx after)) after
  Step-IsCurrent s t (drops _ l r tx pool db at dropped) v all =
      let w = subst (λ x. Agree s.db x) at v in
      let own = subst (λ x. All (IsCurrent s.db) x) at all in
      let frame = Dropped-frame s.db _ _ _ pool db (drop-lives l r tx s.db w s.pool) dropped in
      All-map (IsCurrent s.db) _ (l ++ r) (λ x h. frame-IsCurrent s.db db x frame h)
        (All-remove (IsCurrent s.db) l r tx own)
  Step-IsCurrent s t (collects _ instant) v all =
      collected-IsCurrent s.db s.handles v instant (Step-IsConsistent s _ (collects s instant) v)
        all
  Step-IsCurrent s t (cleans _) v all = cleaned-IsCurrent s.db s.handles v all

  -- A key that the transaction writes, or that it read under serializable isolation.
  abbrev pub touches : TransactionInner → Bytes → Bool
  touches tx k = contains_key tx.writeset k || (is_serializable tx.mode && c.contains tx.readset k)

  -- What shares nothing with a commit touches no key that the commit wrote.
  untouched :
      (tx : TransactionInner) (entry t : Commit) (k : Bytes)
      → entry.writeset ≡ tx.writeset
      → shared tx entry t ≡ none
      → touches tx k ≡ true
      → contains_key t.writeset k ≡ false
  untouched tx entry t k same apart h = elim (Bool-cases (contains_key t.writeset k)) [
    | inr absent ↦ absent
    | inl there ↦
        let member = sym (contains_key-eq t.writeset k) ∙ there in
        let writes : overlap (keys t.writeset) (keys entry.writeset) ≡ false =
          ground (arith, apart) in
        let reads : (is_serializable tx.mode && any (c.contains tx.readset) (keys t.writeset))
            ≡ false =
          ground (arith, apart, writes) in
        let not_mine =
          any-false (λ j. elem j (keys entry.writeset)) (keys t.writeset) k writes member in
        let mine =
          ap (λ w. contains_key w k) (sym same) ∙ contains_key-eq entry.writeset k ∙ not_mine in
        elim (Bool-cases (is_serializable tx.mode)) [
          | inr off ↦ absurd (ground (arith, h, mine, off))
          | inl on ↦
              let unread =
                any-false (c.contains tx.readset) (keys t.writeset) k (ground (arith, reads, on))
                  member in
              absurd (ground (arith, h, mine, on, unread))
        ]
  ]

  module _ (disk : Disk) (db : Inner) (l r : List TransactionInner) (tx : TransactionInner)
      (v : Agree db (l ++ tx ∷ r)) (room : db.transaction_commit_id + 1 < 2 ^ 64) where
    Unseen-since :
        (k : Bytes)
        → ((q : ℕ) (t : Commit)
            → Hit
                (add_u64 tx.commit 1)
                (db.transaction_commit_id + 1)
                (SkipMap.get db.transaction_commit_queue)
                q
                t
            → shared tx (own_entry db tx) t ≡ none)
        → touches tx k ≡ true
        → Unseen db tx.commit k
    unfolding commit_entry
    Unseen-since k free h q t at later =
        let start = (own-IsHandle l r tx db v).start in
        let last = (v.database.queued q t at).0 in
        untouched tx (own_entry db tx) t k refl (free q t (at, omega arith, omega arith)) h

    applied_now :
        (out : Committed) (k : Bytes)
        → IsCurrent db tx
        → Outcome disk db tx out
        → takes_effect out.0 ≡ true
        → tx.writeset ≢ []
        → touches tx k ≡ true
        → fetch_in_datastore db k tx.version ≡ view db k
    applied_now out k cur (was_closed d e) effect some_write h = absurd (ground (arith, e, effect))
    applied_now out k cur (nothing_written d w e) effect some_write h = absurd (some_write w)
    applied_now out k cur (conflicted e d (q, t, hit, same) x s o i left) effect some_write h =
        absurd (ground (arith, x, effect, shared-rejects tx (own_entry db tx) t e same))
    applied_now out k cur (applied d free m x p left) effect some_write h =
        cur.current k (Unseen-since k free h)

  Run-IsCurrent :
      (s t : System)
      → Run s t
      → IsConsistent s
      → All (IsCurrent s.db) s.handles
      → All (IsCurrent t.db) t.handles
  Run-IsCurrent s t (rests _) v all = all
  Run-IsCurrent s t (steps _ u _ step run) v all =
      Run-IsCurrent u t run (Step-IsConsistent s u step v) (Step-IsCurrent s u step v all)

  -- After any run from a database that was just made, and with room for one more commit id and
  -- timestamp below 2^64: a transaction that wrote something, and whose commit takes effect, finds at
  -- its snapshot exactly the value that the database has at the moment of the commit, for every key
  -- in its write set, and under serializable isolation for every key in its read set.
  pub commit_serial :
      (size reset_threshold unix instant : ℕ) (s : System) (l r : List TransactionInner)
      (tx : TransactionInner) (rounds now : ℕ) (instants : List ℕ) (disk : Disk) (out : Committed)
      (k : Bytes)
      → Run (started size reset_threshold unix instant) s
      → s.handles ≡ l ++ tx ∷ r
      → commit (suc rounds) (now ∷ instants) disk s.db tx ≡ some out
      → s.db.transaction_commit_id + 1 < 2 ^ 64
      → s.db.oracle.timestamp + 1 < 2 ^ 64
      → takes_effect out.0 ≡ true
      → tx.writeset ≢ []
      → touches tx k ≡ true
      → fetch_in_datastore s.db k tx.version ≡ view s.db k
  unfolding started
  commit_serial size reset_threshold unix instant s l r tx rounds now instants disk out k run at
        done room ticks effect some_write h =
      let first = started-IsConsistent size reset_threshold unix instant in
      let v = subst (λ x. Agree s.db x) at (Run-IsConsistent _ s run first) in
      let all = subst (λ x. All (IsCurrent s.db) x) at (Run-IsCurrent _ s run first tt) in
      applied_now disk s.db l r tx v room out k (All-at (IsCurrent s.db) l r tx all)
        (commit_outcome l r tx s.db v rounds now instants disk out done room ticks) effect
        some_write h
