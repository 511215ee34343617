-- ===== src/System/Invariant.antt =====
-- The invariant that the database and the open handles keep, call by call.
use stupid_kv.Base.{
  ℕ, ◌<◌, ◌≤◌, ◌≡◌, refl, sym, ap, subst, ◌∙◌, true, Option, List, [], ◌∷◌, ◌++◌, bytes_ord,
  nat_ord, arith, length, Crates,
}
use stupid_kv.Counters.{counter_tombstone}
use stupid_kv.Counters.Holders.{IsCount}
use stupid_kv.Db.{Inner}
use stupid_kv.Tx.{TransactionInner}
use stupid_kv.Tx.Commit.{Committed}
use stupid_kv.Tx.Commit.Stages.{IsDb, Frame}
use stupid_kv.Tx.Commit.Outcome.{Left}
use stupid_kv.System.{System}
use stupid_kv.System.Handles.{
  by_version, by_commit, lives, length-lives, length_middle, IsHandle, All, All-replace, All-map,
  IsHandle-later,
}
use stupid_kv.System.Operations.{Handled, clear_sets-Handled}

module _ ⦃c : Crates⦄ where
  -- The database and the handles agree: no commit is under way, each counter counts the handles
  -- that hold it, the floor of the collection lies in the past, there are fewer handles than
  -- the tombstone, and each handle is sound.
  pub record Agree (db : Inner) (handles : List TransactionInner) : Type 0 where
    pub database : IsDb db
    pub by_oracle : IsCount db.counter_by_oracle (lives by_version handles)
    pub by_starts : IsCount db.counter_by_commit (lives by_commit handles)
    pub floor : db.gc_floor ≤ db.oracle.timestamp
    pub few : length handles < counter_tombstone
    pub each : All (IsHandle db.oracle.timestamp db.transaction_commit_id) handles

  abbrev pub IsConsistent : System → Type 0
  IsConsistent s = Agree s.db s.handles

  pub few_lives :
      (g : TransactionInner → ℕ × ℕ) (l : List TransactionInner)
      → length l < counter_tombstone
      → length (lives g l) < counter_tombstone
  few_lives g l h = subst (λ n. n < counter_tombstone) (sym (length-lives g l)) h

  module _ (g : TransactionInner → ℕ × ℕ) (r : List TransactionInner) (tx tx' : TransactionInner)
      (same : g tx' ≡ g tx) where
    lives-replace : (l : List TransactionInner) → lives g (l ++ tx' ∷ r) ≡ lives g (l ++ tx ∷ r)
    lives-replace [] = ap (λ p. p ∷ lives g r) same
    lives-replace (x ∷ l) = ap (λ p. g x ∷ p) (lives-replace l)

  module _ (l r : List TransactionInner) (tx tx' : TransactionInner) where
    length_replace : length (l ++ tx' ∷ r) ≡ length (l ++ tx ∷ r)
    length_replace = length_middle l r tx' ∙ sym (length_middle l r tx)

    -- A call that touches one handle: the database after it, with the same counters and floor and
    -- no earlier clock.
    pub replaced-Agree :
        (db out : Inner)
        → Agree db (l ++ tx ∷ r)
        → IsDb out
        → Frame db out
        → db.oracle.timestamp ≤ out.oracle.timestamp
        → db.transaction_commit_id ≤ out.transaction_commit_id
        → Handled db.oracle.timestamp db.transaction_commit_id tx tx'
        → Agree out (l ++ tx' ∷ r)
    replaced-Agree db out v i f clock starts h = record {
      database = i;
      by_oracle =
          rw
            (
              f.oracle_counters,
              lives-replace by_version r tx tx' (ground (arith, h.version, h.counter_version)) l,
            )
            v.by_oracle;
      by_starts =
          rw
            (
              f.commit_counters,
              lives-replace by_commit r tx tx' (ground (arith, h.commit, h.counter_commit)) l,
            )
            v.by_starts;
      floor = ground (arith, f.floor, v.floor);
      few = rw length_replace v.few;
      each =
          All-map (IsHandle db.oracle.timestamp db.transaction_commit_id) _ (l ++ tx' ∷ r)
            (λ x i. IsHandle-later _ _ _ _ x clock starts i)
            (All-replace (IsHandle db.oracle.timestamp db.transaction_commit_id) l r tx tx' h.handle
              v.each);
    }

  pub same-Frame : (db : Inner) → Frame db db
  same-Frame db = record { oracle_counters = refl; commit_counters = refl; floor = refl }

  pub left_handle :
      (now last : ℕ) (db : Inner) (tx : TransactionInner) (queue : ℕ → Option _) (out : Committed)
      → IsHandle now last tx
      → Left db tx queue out
      → Handled now last tx out.2
  left_handle now last db tx queue out v l =
      let bare = record tx { writeset = [] } in
      let sound : IsHandle now last bare = record {
        ascending = tt;
        filter = v.filter;
        readset = v.readset;
        snapshot = v.snapshot;
        start = v.start;
      } in
      let h = clear_sets-Handled now last bare sound true in
      subst (λ x. Handled now last tx x) (sym l.handle)
        (record {
          version = h.version;
          counter_version = h.counter_version;
          commit = h.commit;
          counter_commit = h.counter_commit;
          handle = h.handle;
        })
