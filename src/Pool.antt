-- ===== src/Pool.antt =====
-- src/pool/pool.rs, and the life of a handle in src/tx/transaction.rs: the pool of transactions
-- that are reused, and the release of the counters when a handle goes.
pub mod Handles
use stupid_kv.Base.{ℕ, Bool, true, false, Option, none, some, nat_ord, if◌then◌else◌, Crates}
use stupid_kv.Base.SkipMap
use stupid_kv.Counters.{Counters, release_counter}
use stupid_kv.Db.{Inner}
use stupid_kv.Tx.{
  TransactionInner, IsolationLevel, snapshot_isolation, serializable_snapshot_isolation,
}
use stupid_kv.Tx

abbrev pub default_pool_size : ℕ
default_pool_size = 512

module _ ⦃c : Crates⦄ where
  -- The pool's database is passed beside it.
  abbrev pub Pool : Type 0
  Pool = c.ArrayQueue TransactionInner

  unfoldable pub new : ℕ → Pool
  new size = c.array_queue TransactionInner size

  -- A full queue refuses the transaction, which is dropped.
  unfoldable pub put : Pool → TransactionInner → Pool
  put pool inner = elim (c.try_push TransactionInner pool inner) [
    | none ↦ pool
    | some pool' ↦ pool'
  ]

  unfoldable pub get : Pool → Inner → Bool → Option (TransactionInner × Pool × Inner)
  get pool db write = elim (c.try_pop TransactionInner pool) [
    | some (tx, rest) ↦ elim (Tx.reset tx db write) [
      | none ↦ none
      | some (tx', db') ↦ some (tx', rest, db')
    ]
    | none ↦ elim (Tx.new db write) [ none ↦ none | some (tx', db') ↦ some (tx', pool, db') ]
  ]

  -- One counter of the dropped transaction; the last holder removes the entry by its key.
  unfoldable pub drop_counter : Counters → ℕ → ℕ → Option Counters
  drop_counter cs v r = elim (release_counter cs r) [
    | none ↦ none
    | some (cs', last_holder) ↦
        some (if last_holder then record cs' { map = SkipMap.remove cs'.map v } else cs')
  ]

  -- `Drop for Transaction`, whose `inner` is `None` if it was taken before; `none` if a loop spins.
  unfoldable pub drop : Pool → Inner → Option TransactionInner → Option (Pool × Inner)
  unfolding drop_counter put
  drop pool db none = some (pool, db)
  drop pool db (some inner) =
      elim (drop_counter db.counter_by_commit inner.commit inner.counter_commit) [
        | none ↦ none
        | some by_commit ↦
            elim (drop_counter db.counter_by_oracle inner.version inner.counter_version) [
              | none ↦ none
              | some by_oracle ↦ some (
                put pool inner,
                record db { counter_by_commit = by_commit; counter_by_oracle = by_oracle },
              )
            ]
      ]

  unfoldable pub with_snapshot_isolation : TransactionInner → TransactionInner
  with_snapshot_isolation tx = record tx { mode = snapshot_isolation }

  unfoldable pub with_serializable_snapshot_isolation : TransactionInner → TransactionInner
  with_serializable_snapshot_isolation tx = record tx { mode = serializable_snapshot_isolation }
