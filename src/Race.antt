-- ===== src/Race.antt =====
-- Commits of several threads that overlap, in src/tx/transaction_inner.rs: `commit` from the start of
-- its transaction to the end of its walk over the commit queue, one access to the shared state at a
-- time. What a commit does after the walk does not touch the commit queue or the commit id. The
-- writes of a transaction are there from the start, since no other thread sees them before; the
-- collection of the commit queue is left out.
pub mod Invariant
pub mod Phases
pub mod Update
pub mod Turns
pub mod Counted
pub mod Walk
pub mod Steps
pub mod Runs
pub mod Safety
use stupid_kv.Base.{
  ℕ, suc, ◌+◌, ◌^◌, Bool, true, false, not, ◌&&◌, Option, none, some, List, [], ◌∷◌, nat_ord, ltb,
  ◌==◌, if◌then◌else◌, any, get_elem?, set, add_u64, Crates,
}
use stupid_kv.Base.SkipMap
use stupid_kv.Versions.{is_some}
use stupid_kv.Queue.{Commit}
use stupid_kv.Tx.{TransactionInner, Error}
use stupid_kv.Tx.Commit.{commit_entry, entry_conflict}

-- Where a thread stands: before its transaction, in it, with its entry made, with the commit id
-- loaded for its next try, with its entry in the queue, on the walk, and at the end of it.
pub data Phase : Type 0 where
  idle begun : Phase
  queued : Commit → Phase
  loaded inserted passed : Commit → ℕ → Phase
  scanning : Commit → ℕ → ℕ → Phase
  refused : Error → Phase

abbrev pub loaded_at : Phase → Option ℕ
loaded_at (loaded t v) = some v
loaded_at _ = none

module _ ⦃c : Crates⦄ where
  pub record Thread : Type 0 where
    pub tx : TransactionInner
    pub phase : Phase

  -- The shared state that the commits use, and the threads.
  pub record Race : Type 0 where
    pub queue_id : ℕ
    pub commit_id : ℕ
    pub queue : c.SkipMap ℕ Commit
    pub threads : List Thread

  abbrev to : Thread → Phase → Thread
  to th phase = record th { phase = phase }

  -- The comparison at one place of the walk, which is empty or has an entry.
  abbrev look_at : Race → Thread → Commit → ℕ → ℕ → Option Commit → Thread × Race
  look_at s th t v n none = (to th (scanning t v (suc n)), s)
  look_at s th t v n (some u) = elim (entry_conflict th.tx t u) [
    | none ↦ (to th (scanning t v (suc n)), s)
    | some e ↦ (to th (refused e), record s { queue = SkipMap.remove s.queue v })
  ]

  -- The next access of a thread: the load of the commit id at its start, the number of its entry,
  -- the load in `auto_commit`, `get_or_insert_with` with the comparison of the numbers, `fetch_add`,
  -- and one place of the walk after another.
  unfoldable pub act : Race → Thread → Phase → Thread × Race
  act s th idle = (record th { tx = record th.tx { commit = s.commit_id }; phase = begun }, s)
  act s th begun =
      let id = add_u64 s.queue_id 1 in
      (to th (queued (commit_entry th.tx.writeset id)), record s { queue_id = id })
  act s th (queued t) = (to th (loaded t (add_u64 s.commit_id 1)), s)
  act s th (loaded t v) =
      let (queue, entry) = SkipMap.get_or_insert s.queue v t in
      (to th (if t.id == entry.id then inserted t v else queued t), record s { queue = queue })
  act s th (inserted t v) = (
    to th (scanning t v (add_u64 th.tx.commit 1)),
    record s { commit_id = add_u64 s.commit_id 1 },
  )
  act s th (scanning t v n) =
      if ltb n v then look_at s th t v n (SkipMap.get s.queue n) else (to th (passed t v), s)
  act s th (passed t v) = (th, s)
  act s th (refused e) = (th, s)

  unfoldable pub turn : Race → ℕ → Race
  unfolding act
  turn s i = elim (get_elem? s.threads i) [
    | none ↦ s
    | some th ↦ let (th', s') = act s th th.phase in record s' { threads = set s.threads i th' }
  ]

  -- Threads take turns in the order of the schedule.
  unfoldable pub run : Race → List ℕ → Race
  unfolding turn
  run s [] = s
  run s (i ∷ schedule) = run (turn s i) schedule

  -- The place that a thread has loaded has an entry before a turn and none after it.
  abbrev pub taken : Race → Race → Option ℕ → Bool
  taken s s' none = false
  taken s s' (some v) = is_some (SkipMap.get s.queue v) && not (is_some (SkipMap.get s'.queue v))

  abbrev pub takes : Race → ℕ → Thread → Bool
  unfolding turn
  takes s i th = taken s (turn s i) (loaded_at th.phase)

  -- No turn takes an entry out of a place that a thread has loaded, and both counters have room.
  unfoldable pub calm : Race → ℕ → Bool
  unfolding turn
  calm s i =
      ltb (s.commit_id + 1) (2 ^ 64)
      && ltb (s.queue_id + 1) (2 ^ 64)
      && not (any (takes s i) s.threads)

  unfoldable pub smooth : Race → List ℕ → Bool
  unfolding calm
  smooth s [] = true
  smooth s (i ∷ schedule) = calm s i && smooth (turn s i) schedule

  -- A new database and threads that have not begun.
  abbrev pub start : List Thread → Race
  start threads = record { queue_id = 0; commit_id = 0; queue = SkipMap.empty; threads = threads }
