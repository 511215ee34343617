-- ===== src/Counters.antt =====
-- The counters of the active snapshots: `counter_by_commit` and `counter_by_oracle` of
-- src/db/inner.rs with `earliest_active`, and `register_counter` and `release_counter` of
-- src/tx/transaction_inner.rs. An `Arc<AtomicU64>` is the index of a cell, so that a transaction
-- and the map share a counter.
pub mod Holders
pub mod Register
pub mod Release
pub mod Earliest
use stupid_kv.Base.{
  ℕ, zero, suc, ◌+◌, ◌-◌, ◌^◌, Bool, true, false, not, ◌&&◌, Option, none, some, List, [], ◌∷◌,
  ◌++◌, nat_ord, ltb, leb, ◌==◌, if◌then◌else◌, length, get_or, set, Crates,
}
use stupid_kv.Base.BTreeMap.{BTreeMap}
use stupid_kv.Base.SkipMap

abbrev pub counter_tombstone : ℕ
counter_tombstone = 2 ^ 64 - 1

pub record Counters ⦃c : Crates⦄ : Type 0 where
  pub map : c.SkipMap ℕ ℕ
  pub cells : List ℕ

-- What one round of `register_counter` loads: the snapshot, the snapshot again, and `gc_floor`
-- where it is given. Other threads may change these between the loads.
pub record Loads : Type 0 where
  pub first : ℕ
  pub again : ℕ
  pub floor : Option ℕ

abbrev pub floor_ok : Option ℕ → ℕ → Bool
floor_ok none v = true
floor_ok (some floor) v = leb floor v

abbrev pub accepted : Loads → Bool
accepted l = l.again == l.first && floor_ok l.floor l.first

-- The first entry in the order of the keys that is neither zero nor a tombstone.
unfoldable pub first_active : List ℕ → BTreeMap ℕ ℕ → ℕ → ℕ
first_active cells [] fallback = fallback
first_active cells ((v, r) ∷ m) fallback =
    let rest = first_active cells m fallback in
    if not (get_or cells r 0 == 0) && not (get_or cells r 0 == counter_tombstone) then v else rest

module _ ⦃c : Crates⦄ where
  abbrev pub load : Counters → ℕ → ℕ
  load cs r = get_or cs.cells r 0

  abbrev pub store : Counters → ℕ → ℕ → Counters
  store cs r n = record cs { cells = set cs.cells r n }

  unfoldable pub no_counters : Counters
  no_counters = record { map = c.empty ℕ ℕ; cells = [] }

  -- `get_or_insert_with(v, || Arc::new(AtomicU64::new(0)))`.
  unfoldable pub slot : Counters → ℕ → Counters × ℕ
  slot cs v = elim (SkipMap.get cs.map v) [
    | none ↦ (
      record { map = SkipMap.insert cs.map v (length cs.cells); cells = cs.cells ++ 0 ∷ [] },
      length cs.cells,
    )
    | some r ↦ (cs, r)
  ]

  -- The counter after a release, and whether the caller has to take its entry out of the map.
  -- `none`: the loop spins for ever, on a counter that nobody holds.
  unfoldable pub release_counter : Counters → ℕ → Option (Counters × Bool)
  release_counter cs r =
      if ltb 1 (load cs r)
      then some (store cs r (load cs r - 1), false)
      else if load cs r == 1
      then some (store cs r counter_tombstone, true)
      else none

  -- The removal after a rollback, if the entry still holds this counter (`Arc::ptr_eq`).
  unfoldable pub remove_own : Counters → ℕ → ℕ → Bool → Counters
  remove_own cs v r false = cs
  remove_own cs v r true = elim (SkipMap.get cs.map v) [
    | none ↦ cs
    | some s ↦ if s == r then record cs { map = SkipMap.remove cs.map v } else cs
  ]

  unfoldable pub rollback : Counters → ℕ → ℕ → Option Counters
  rollback cs v r = elim (release_counter cs r) [
    | none ↦ none
    | some (cs', last_holder) ↦ some (remove_own cs' v r last_holder)
  ]

  -- The rounds of the loop, one for each entry of the list; `none` if it did not return in these.
  unfoldable pub register_counter : List Loads → Counters → Option (ℕ × ℕ × Counters)
  register_counter [] cs = none
  register_counter (l ∷ ls) cs =
      let (cs', r) = slot cs l.first in
      let current = load cs' r in
      let raised = store cs' r (current + 1) in
      if current == counter_tombstone
      then register_counter ls cs'
      else if accepted l
      then some (l.first, r, raised)
      else elim (rollback raised l.first r) [ none ↦ none | some cs'' ↦ register_counter ls cs'' ]

  unfoldable pub earliest_active : Counters → ℕ → ℕ
  unfolding first_active
  earliest_active cs fallback = first_active cs.cells (SkipMap.iter cs.map) fallback
