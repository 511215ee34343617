-- ===== src/Pool/Handles.antt =====
-- A handle from the pool holds both of its counters until it is dropped.
use stupid_kv.Base.{
  ℕ, ◌≤◌, ◌<◌, ◌≡◌, refl, Bool, Option, none, some, ◌∷◌, length, Crates, Option-cases, inl, inr,
}
use stupid_kv.Counters.{Counters, counter_tombstone, release_counter}
use stupid_kv.Counters.Holders.{Live, IsCount}
use stupid_kv.Counters.Release.{Released, release-Released}
use stupid_kv.Db.{Inner}
use stupid_kv.Tx.{TransactionInner}
use stupid_kv.Tx
use stupid_kv.Tx.Begin.{Begun, Starts, new-Begun, reset-Begun}
use stupid_kv.Pool.{Pool, get, drop, drop_counter}

module _ ⦃c : Crates⦄ where
  abbrev pub Got : Inner → Bool → Live → Live → Option (TransactionInner × Pool × Inner) → Type 0
  Got db write by_oracle by_commit none = ⊥
  Got db write by_oracle by_commit (some (tx, pool, out)) =
      Begun db write by_oracle by_commit tx out

  abbrev pub Dropped : Inner → Live → Live → Option (Pool × Inner) → Type 0
  Dropped db by_oracle by_commit none = ⊥
  Dropped db by_oracle by_commit (some (pool, out)) =
      IsCount out.counter_by_oracle by_oracle
      × IsCount out.counter_by_commit by_commit
      × (out ≡ record db {
        counter_by_oracle = out.counter_by_oracle;
        counter_by_commit = out.counter_by_commit;
      })

  drop_counter-IsCount :
      (cs : Counters) (live : Live) (v r : ℕ)
      → IsCount cs ((v, r) ∷ live)
      → (ds : Counters) × (drop_counter cs v r ≡ some ds) × IsCount ds live
  unfolding drop_counter
  drop_counter-IsCount cs live v r inv =
      ended (release_counter cs r) refl (release-Released cs live v r inv)
    where
      ended :
          (o : Option (Counters × Bool))
          → release_counter cs r ≡ o
          → Released cs live v r inv o
          → (ds : Counters) × (drop_counter cs v r ≡ some ds) × IsCount ds live
      ended none e h = absurd h
      ended (some (ds, b)) e h = (_, rw (e, drop_counter) refl, h.0)

  module _ (db : Inner) (write : Bool) (by_oracle by_commit : Live)
      (count_o : IsCount db.counter_by_oracle by_oracle)
      (count_c : IsCount db.counter_by_commit by_commit)
      (few_o : length by_oracle < counter_tombstone) (few_c : length by_commit < counter_tombstone)
      (floor : db.gc_floor ≤ db.oracle.timestamp) where
    -- Under the conditions of a start, `Pool::get` returns a transaction that has begun, whether
    -- it was taken from the pool or made.
    pub get-Begun : (pool : Pool) → Got db write by_oracle by_commit (get pool db write)
    unfolding get
    get-Begun pool = elim (Option-cases (c.try_pop TransactionInner pool)) [
      | inl e ↦
          rw (e, get)
            (handed pool (Tx.new db write)
              (new-Begun db write by_oracle by_commit count_o count_c few_o few_c floor))
      | inr ((old, rest), e) ↦
          rw (e, get)
            (handed rest (Tx.reset old db write)
              (reset-Begun db write by_oracle by_commit count_o count_c few_o few_c floor old))
    ]
      where
        handed :
            (rest : Pool) (o : Option (TransactionInner × Inner))
            → Starts db write by_oracle by_commit o
            → Got db write by_oracle by_commit
                (elim o [ none ↦ none | some (tx', db') ↦ some (tx', rest, db') ])
        handed rest none h = absurd h
        handed rest (some (tx, out)) h = h

  -- Where the counters count a transaction among the active ones, the drop of its handle
  -- returns; afterwards each of the two counters counts the others alone, and nothing else of
  -- the database changes.
  pub drop-Dropped :
      (pool : Pool) (db : Inner) (tx : TransactionInner) (by_oracle by_commit : Live)
      → IsCount db.counter_by_oracle ((tx.version, tx.counter_version) ∷ by_oracle)
      → IsCount db.counter_by_commit ((tx.commit, tx.counter_commit) ∷ by_commit)
      → Dropped db by_oracle by_commit (drop pool db (some tx))
  unfolding drop
  drop-Dropped pool db tx by_oracle by_commit o m =
      let (ds, e, held_o) =
        drop_counter-IsCount db.counter_by_oracle by_oracle tx.version tx.counter_version o in
      let (es, f, held_c) =
        drop_counter-IsCount db.counter_by_commit by_commit tx.commit tx.counter_commit m in
      rw (f, e, drop) (held_o, held_c, refl)
