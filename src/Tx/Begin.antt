-- ===== src/Tx/Begin.antt =====
-- The start of a transaction, fresh or reused: `TransactionInner::new` and `reset`.
use stupid_kv.Base.{
  ℕ, ◌≤◌, ◌<◌, ◌≡◌, refl, sym, ap, subst, ◌∙◌, Bool, true, false, Option, none, some, [], ◌∷◌,
  bytes_ord, nat_ord, arith, any, length, Crates, inl, inr,
}
use stupid_kv.Bloom.{BloomFilter}
use stupid_kv.Bloom
use stupid_kv.Bloom.Contains.{IsFilter, new-IsFilter, clear-IsFilter, may_contain-clear}
use stupid_kv.Queue.Disjoint.{IsReadset}
use stupid_kv.Counters.{counter_tombstone, Counters, register_counter, Loads, accepted}
use stupid_kv.Counters.Holders.{Live, IsCount}
use stupid_kv.Counters.Register.{register_counter-Outcome, Outcome}
use stupid_kv.Db.{Inner}
use stupid_kv.Tx.{TransactionInner, register, new, reset, snapshot_isolation}

module _ ⦃c : Crates⦄ where
  -- What a transaction that begins finds and leaves.
  pub record Begun (db : Inner) (write : Bool) (by_oracle by_commit : Live) (tx : TransactionInner)
      (out : Inner) : Type 0 where
    pub version : tx.version ≡ db.oracle.timestamp
    pub commit : tx.commit ≡ db.transaction_commit_id
    pub oracle_count : IsCount out.counter_by_oracle ((tx.version, tx.counter_version) ∷ by_oracle)
    pub commit_count : IsCount out.counter_by_commit ((tx.commit, tx.counter_commit) ∷ by_commit)
    pub active : tx.done ≡ false
    pub writable : tx.write ≡ write
    pub mode : tx.mode ≡ snapshot_isolation
    pub nothing_written : tx.writeset ≡ []
    pub filter : IsFilter tx.readset_bloom
    pub readset : IsReadset tx.readset tx.readset_bloom
    pub frame : out ≡ record db {
      counter_by_oracle = out.counter_by_oracle;
      counter_by_commit = out.counter_by_commit;
    }

  -- The call returns, with a transaction that has begun.
  abbrev pub Starts : Inner → Bool → Live → Live → Option (TransactionInner × Inner) → Type 0
  Starts db write by_oracle by_commit none = ⊥
  Starts db write by_oracle by_commit (some (tx, out)) = Begun db write by_oracle by_commit tx out

  -- One round that is accepted registers the snapshot it loaded.
  registered :
      (l : Loads) (cs : Counters) (live : Live)
      → accepted l ≡ true
      → IsCount cs live
      → length live < counter_tombstone
      → (r : ℕ) × (ds : Counters) × (register_counter (l ∷ []) cs ≡ some (l.first, r, ds))
        × IsCount ds ((l.first, r) ∷ live)
  unfolding any
  registered l cs live a inv few =
      ended (register_counter (l ∷ []) cs) refl (register_counter-Outcome (l ∷ []) cs live inv few)
    where
      ended :
          (o : Option (ℕ × ℕ × Counters))
          → register_counter (l ∷ []) cs ≡ o
          → Outcome live (l ∷ []) o
          → (r : ℕ) × (ds : Counters) × (register_counter (l ∷ []) cs ≡ some (l.first, r, ds))
            × IsCount ds ((l.first, r) ∷ live)
      ended none e h = absurd (ground arith)
      ended (some (v, r, ds)) e (inv', inl (same, _)) = (
        r,
        ds,
        e ∙ ap (λ (w : ℕ). some (w, r, ds)) (sym same),
        subst (λ (w : ℕ). IsCount ds ((w, r) ∷ live)) (sym same) inv',
      )
      ended (some (v, r, ds)) e (inv', inr stop) = absurd stop

  pub fresh-IsReadset :
      (bloom : BloomFilter) → Bloom.is_empty bloom ≡ true → IsReadset c.no_keys bloom
  fresh-IsReadset bloom e = record {
    reads_in_bloom = λ k h. cc (c.contains-no_keys k);
    empty_bloom = λ _ k. c.contains-no_keys k;
  }

  pub new_empty : Bloom.is_empty Bloom.new ≡ true
  unfolding Bloom.is_empty Bloom.new
  new_empty = refl

  module _ (db : Inner) (write : Bool) (by_oracle by_commit : Live)
      (count_o : IsCount db.counter_by_oracle by_oracle)
      (count_c : IsCount db.counter_by_commit by_commit)
      (few_o : length by_oracle < counter_tombstone) (few_c : length by_commit < counter_tombstone)
      (floor : db.gc_floor ≤ db.oracle.timestamp) where
    abbrev version_load : Loads
    version_load = record {
      first = db.oracle.timestamp;
      again = db.oracle.timestamp;
      floor = some db.gc_floor;
    }

    abbrev commit_load : Loads
    commit_load = record {
      first = db.transaction_commit_id;
      again = db.transaction_commit_id;
      floor = none;
    }

    -- With counters that count the active transactions, fewer than the tombstone of them, and a
    -- `gc_floor` at most the timestamp, `TransactionInner::new` returns: the transaction has the
    -- current timestamp and commit id as its snapshot and its start, an empty write set and a
    -- sound, empty read set, each of its two counters counts one holder more, and nothing else
    -- of the database changes.
    pub new-Begun : Starts db write by_oracle by_commit (new db write)
    unfolding new register
    new-Begun =
        let (r, ds, e, inv) =
          registered version_load db.counter_by_oracle by_oracle (ground arith) count_o few_o in
        let (s, es, f, jnv) =
          registered commit_load db.counter_by_commit by_commit (ground arith) count_c few_c in
        rw (e, f, new)
          (record {
            version = refl;
            commit = refl;
            oracle_count = inv;
            commit_count = jnv;
            active = refl;
            writable = refl;
            mode = refl;
            nothing_written = refl;
            filter = new-IsFilter;
            readset = fresh-IsReadset Bloom.new new_empty;
            frame = refl;
          })

    -- Under the same conditions `reset` of any transaction does what `new` does: nothing of the
    -- old transaction is left in the snapshot, the flags, the isolation level or the sets.
    pub reset-Begun :
        (old : TransactionInner) → Starts db write by_oracle by_commit (reset old db write)
    unfolding reset register
    reset-Begun old =
        let (r, ds, e, inv) =
          registered version_load db.counter_by_oracle by_oracle (ground arith) count_o few_o in
        let (s, es, f, jnv) =
          registered commit_load db.counter_by_commit by_commit (ground arith) count_c few_c in
        rw (e, f, reset)
          (record {
            version = refl;
            commit = refl;
            oracle_count = inv;
            commit_count = jnv;
            active = refl;
            writable = refl;
            mode = refl;
            nothing_written = ground arith;
            filter = clear-IsFilter old.readset_bloom;
            readset =
                fresh-IsReadset (Bloom.clear old.readset_bloom)
                  (may_contain-clear [] old.readset_bloom).2;
            frame = refl;
          })
