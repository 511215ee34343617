-- ===== src/Persistence/Heights.antt =====
-- How far the chain of one key reaches, over the writes of commits, the replay of a log and `load`.
use stupid_kv.Base.{
  ℕ, ◌≤◌, ◌≡◌, sym, subst, true, Option, some, List, [], ◌∷◌, ◌++◌, Bytes, bytes_ord, nat_ord, eqb,
  eqb_iff, Bool-cases, Crates, Option-cases, inl, inr,
}
use stupid_kv.Base.SkipMap
use stupid_kv.Versions.{Versions, Version, push, from}
use stupid_kv.Versions.Order.{IsSorted}
use stupid_kv.Versions.Push.{push-IsSorted}
use stupid_kv.Versions.Bounds.{AtMost, push-AtMost, from-IsSorted, from-AtMost}
use stupid_kv.Queue.{Writeset}
use stupid_kv.Db.{Inner, Datastore}
use stupid_kv.Db.Chains.{ChainIsSorted, ChainAtMost}
use stupid_kv.Persistence.{LogEntry, log_entries}
use stupid_kv.Persistence.Files.{load_write}
use stupid_kv.Persistence.Chains.{rebuilt-ChainIsSorted, rebuilt-ChainAtMost}
use stupid_kv.Persistence.Replay.{
  restored, get-restored, Commits, store_commits, log_of, IsLog, last_version,
}
use stupid_kv.Tx.Commit.{store_write, store_writes}
use stupid_kv.Tx.Commit.Store.{
  IsBounded, IsBounded-mono, store_write-none, store_write-some, store_write-Writes,
  store_writes-IsBounded,
}
use stupid_kv.Persistence.Entries.{WritesBelow}

module _ ⦃c : Crates⦄ where
  -- The chain of one key is sorted and has no version above `v`.
  abbrev pub Under : Bytes → ℕ → Datastore → Type 0
  Under j v ds = ChainIsSorted (SkipMap.get ds j) × ChainAtMost v (SkipMap.get ds j)

  insert-Under :
      (j : Bytes) (v : ℕ) (ds : Datastore) (k : Bytes) (vs : Versions)
      → (eqb j k ≡ true → IsSorted vs × AtMost v vs)
      → Under j v ds
      → Under j v (SkipMap.insert ds k vs)
  insert-Under j v ds k vs new old = elim (Bool-cases (eqb j k)) [
    | inl here ↦ rw (SkipMap.get-insert ds k vs j, here) (new here)
    | inr other ↦ rw (SkipMap.get-insert ds k vs j, other) old
  ]

  module _ (j : Bytes) (v : ℕ) (ds : Datastore) (k : Bytes) (n : ℕ) (y : Option Bytes)
      (below : eqb j k ≡ true → n ≤ v) (u : Under j v ds) where
    abbrev written : Version
    written = record { version = n; value = y }

    made : eqb j k ≡ true → IsSorted (from written) × AtMost v (from written)
    made e = (from-IsSorted written, from-AtMost v written (below e))

    pushed :
        (vs : Versions)
        → SkipMap.get ds k ≡ some vs
        → eqb j k ≡ true
        → IsSorted (push vs written) × AtMost v (push vs written)
    pushed vs at e =
        let chain : Under k v ds = subst (λ i. Under i v ds) ((eqb_iff j k).0 e) u in
        let s : IsSorted vs = subst ChainIsSorted at chain.0 in
        (
          push-IsSorted vs written s,
          push-AtMost v vs written s (below e) (subst (ChainAtMost v) at chain.1),
        )

    pub load_write-Under : Under j v (load_write ds (k, n, y))
    unfolding load_write
    load_write-Under = elim (Option-cases (SkipMap.get ds k)) [
      | inl e ↦ rw (e, load_write) (insert-Under j v ds k (from written) made u)
      | inr (vs, e) ↦ rw (e, load_write) (insert-Under j v ds k (push vs written) (pushed vs e) u)
    ]

    store_write-Under : IsBounded n ds → Under j v (store_write ds n k y)
    store_write-Under w = elim (Option-cases (SkipMap.get ds k)) [
      | inl e ↦
          let one = from written in
          let made_under = insert-Under j v ds k one made u in
          rw (store_write-none ds n k y w e) (
            insert-Under j v (SkipMap.insert ds k one) k (push one written)
              (λ h. (
                push-IsSorted one written (from-IsSorted written),
                push-AtMost v one written (from-IsSorted written) (below h) (made h).1,
              ))
              made_under)
      | inr (vs, e) ↦
          rw (store_write-some ds n k y w vs e)
            (insert-Under j v ds k (push vs written) (pushed vs e) u)
    ]

  store_writes-Under :
      (j : Bytes) (v n : ℕ) (ws : Writeset) (db : Inner) (es : List LogEntry)
      → WritesBelow j v (log_entries n ws ++ es)
      → IsBounded n db.datastore
      → Under j v db.datastore
      → Under j v (store_writes db n ws).datastore × WritesBelow j v es
  unfolding store_writes log_entries
  store_writes-Under j v n [] db es below w u = (u, below)
  store_writes-Under j v n ((k, y) ∷ ws) db es below w u =
      store_writes-Under j v n ws _ es below.1 (store_write-Writes db.datastore n k y w).bounded
        (store_write-Under j v db.datastore k n y below.0 u w)

  pub store_commits-Under :
      (j : Bytes) (v b : ℕ) (cs : Commits) (db : Inner)
      → IsLog b cs
      → WritesBelow j v (log_of cs)
      → IsBounded b db.datastore
      → Under j v db.datastore
      → Under j v (store_commits db cs).datastore
  store_commits-Under j v b [] db l below w u = u
  store_commits-Under j v b ((n, ws) ∷ cs) db l below w u =
      let w' = IsBounded-mono b n db.datastore l.0 w in
      let (u', below') = store_writes-Under j v n ws db (log_of cs) below w' u in
      store_commits-Under j v n cs (store_writes db n ws) l.2 below'
        (store_writes-IsBounded n ws db w') u'

  pub store_commits-IsBounded :
      (b : ℕ) (cs : Commits) (db : Inner)
      → IsLog b cs
      → IsBounded b db.datastore
      → IsBounded (last_version b cs) (store_commits db cs).datastore
  store_commits-IsBounded b [] db l w = w
  store_commits-IsBounded b ((n, ws) ∷ cs) db l w =
      store_commits-IsBounded n cs (store_writes db n ws) l.2
        (store_writes-IsBounded n ws db (IsBounded-mono b n db.datastore l.0 w))

  pub IsBounded-Under :
      (j : Bytes) (b v : ℕ) (ds : Datastore) → b ≤ v → IsBounded b ds → Under j v ds
  IsBounded-Under j b v ds h w = (w.store.chains j, (IsBounded-mono b v ds h w).at_most j)

  pub restored-Under : (j : Bytes) (v : ℕ) (ds : Datastore) → Under j v ds → Under j v (restored ds)
  restored-Under j v ds u = (
    subst ChainIsSorted (sym (get-restored ds j)) (rebuilt-ChainIsSorted (SkipMap.get ds j)),
    subst (ChainAtMost v) (sym (get-restored ds j)) (rebuilt-ChainAtMost v (SkipMap.get ds j) u.1),
  )
