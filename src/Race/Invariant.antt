-- ===== src/Race/Invariant.antt =====
-- What every turn of the threads keeps, and the turns that do not put in or take out an entry.
use stupid_kv.Base.{
  ℕ, ◌+◌, ◌≤◌, ◌<◌, ◌≡◌, true, Option, none, some, nat_ord, bytes_ord, eqb, if◌then◌else◌, Crates,
}
use stupid_kv.Base.BTreeMap.{IsAscending}
use stupid_kv.Base.SkipMap
use stupid_kv.Versions.{is_some}
use stupid_kv.Queue.{Commit}
use stupid_kv.Queue.Disjoint.{IsCommit, IsReadset}
use stupid_kv.Tx.{TransactionInner}
use stupid_kv.Tx.Commit.{entry_conflict}
use stupid_kv.Race.{
  Phase, idle, begun, queued, loaded, inserted, scanning, passed, refused, Thread, Race,
}

-- The entry that a thread has made, its place in the queue, and how far its walk has come.
abbrev pub own : Phase → Option Commit
own (queued t) = some t
own (loaded t v) = some t
own (inserted t v) = some t
own (scanning t v n) = some t
own (passed t v) = some t
own _ = none

abbrev pub place : Phase → Option (Commit × ℕ)
place (inserted t v) = some (t, v)
place (scanning t v n) = some (t, v)
place (passed t v) = some (t, v)
place _ = none

abbrev pub scanned : Phase → Option (Commit × ℕ)
scanned (scanning t v n) = some (t, n)
scanned (passed t v) = some (t, v)
scanned _ = none

module _ ⦃c : Crates⦄ where
  -- A sound entry with a number that was given out, of a transaction that began in the past.
  abbrev pub Made : Race → TransactionInner → Commit → Type 0
  Made s tx t = (t.id ≤ s.queue_id) × IsCommit t × (tx.commit ≤ s.commit_id)

  -- What holds of one thread. The place of an entry that was just inserted is the next commit id;
  -- a place that was loaded is free only if it still is the next.
  abbrev pub Stands : Race → TransactionInner → Phase → Type 0
  Stands s tx idle = Unit {0}
  Stands s tx begun = tx.commit ≤ s.commit_id
  Stands s tx (queued t) = Made s tx t
  Stands s tx (loaded t v) =
      Made s tx t
      × (v ≤ s.commit_id + 1)
      × (v ≤ s.commit_id → is_some (SkipMap.get s.queue v) ≡ true)
  Stands s tx (inserted t v) =
      Made s tx t × (v ≡ s.commit_id + 1) × (SkipMap.get s.queue v ≡ some t)
  Stands s tx (scanning t v n) =
      Made s tx t × (v ≤ s.commit_id) × (SkipMap.get s.queue v ≡ some t) × (n ≤ s.commit_id + 1)
  Stands s tx (passed t v) = Made s tx t × (v ≤ s.commit_id) × (SkipMap.get s.queue v ≡ some t)
  Stands s tx (refused e) = Unit {0}

  pub record IsThread (s : Race) (th : Thread) : Type 0 where
    pub ascending : IsAscending th.tx.writeset
    pub readset : IsReadset th.tx.readset th.tx.readset_bloom
    pub stands : Stands s th.tx th.phase

  -- `look` gives the threads by their numbers.
  pub record IsRace (s : Race) (look : ℕ → Option Thread) : Type 0 where
    pub each : (j : ℕ) (th : Thread) → look j ≡ some th → IsThread s th
    pub distinct :
        (i j : ℕ) (a b : Thread) (t u : Commit)
        → look i ≡ some a
        → look j ≡ some b
        → own a.phase ≡ some t
        → own b.phase ≡ some u
        → t.id ≡ u.id
        → i ≡ j
    pub owned :
        (v : ℕ) (t : Commit)
        → SkipMap.get s.queue v ≡ some t
        → (j : ℕ) × (th : Thread) × (look j ≡ some th) × (place th.phase ≡ some (t, v))
    -- Nothing that a walk has come past conflicts.
    pub checked :
        (i j : ℕ) (a b : Thread) (t u : Commit) (v n : ℕ)
        → look i ≡ some a
        → look j ≡ some b
        → place a.phase ≡ some (t, v)
        → scanned b.phase ≡ some (u, n)
        → b.tx.commit < v
        → v < n
        → entry_conflict b.tx u t ≡ none

  abbrev pub update : (ℕ → Option Thread) → ℕ → Thread → ℕ → Option Thread
  update look i th j = if eqb j i then some th else look j
