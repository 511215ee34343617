-- ===== src/Race/Phases.antt =====
-- What the phase of a thread says of its entry, its place and its walk.
use stupid_kv.Base.{
  ℕ, ◌+◌, ◌≤◌, ◌≡◌, refl, subst, true, Option, none, some, nat_ord, bytes_ord, arith, Crates,
}
use stupid_kv.Base.SkipMap
use stupid_kv.Versions.{is_some}
use stupid_kv.Queue.{Commit}
use stupid_kv.Tx.{TransactionInner}
use stupid_kv.Race.{
  Phase, idle, begun, queued, loaded, inserted, scanning, passed, refused, Thread, Race, loaded_at,
}
use stupid_kv.Race.Invariant.{own, place, scanned, Stands}

module _ ⦃c : Crates⦄ where
  pub own-numbered :
      (s : Race) (tx : TransactionInner) (p : Phase) (t : Commit)
      → Stands s tx p
      → own p ≡ some t
      → t.id ≤ s.queue_id
  own-numbered s tx idle t h e = cc
  own-numbered s tx begun t h e = cc
  own-numbered s tx (queued u) t h e = ground arith
  own-numbered s tx (loaded u v) t h e = ground arith
  own-numbered s tx (inserted u v) t h e = ground arith
  own-numbered s tx (scanning u v n) t h e = ground arith
  own-numbered s tx (passed u v) t h e = ground arith
  own-numbered s tx (refused x) t h e = cc

  pub place-own : (p : Phase) (t : Commit) (v : ℕ) → place p ≡ some (t, v) → own p ≡ some t
  place-own idle t v e = cc
  place-own begun t v e = cc
  place-own (queued u) t v e = cc
  place-own (loaded u w) t v e = cc
  place-own (inserted u w) t v e = ground arith
  place-own (scanning u w n) t v e = ground arith
  place-own (passed u w) t v e = ground arith
  place-own (refused x) t v e = cc

  -- What has a place stands in the queue.
  pub place-held :
      (s : Race) (tx : TransactionInner) (p : Phase) (t : Commit) (v : ℕ)
      → Stands s tx p
      → place p ≡ some (t, v)
      → (SkipMap.get s.queue v ≡ some t) × (v ≤ s.commit_id + 1)
  place-held s tx idle t v h e = cc
  place-held s tx begun t v h e = cc
  place-held s tx (queued u) t v h e = cc
  place-held s tx (loaded u w) t v h e = cc
  place-held s tx (inserted u w) t v h e = ground arith
  place-held s tx (scanning u w n) t v h e = ground arith
  place-held s tx (passed u w) t v h e = ground arith
  place-held s tx (refused x) t v h e = cc

  -- No walk has come past the next commit id.
  pub scanned-le :
      (s : Race) (tx : TransactionInner) (p : Phase) (u : Commit) (n : ℕ)
      → Stands s tx p
      → scanned p ≡ some (u, n)
      → n ≤ s.commit_id + 1
  scanned-le s tx idle u n h e = cc
  scanned-le s tx begun u n h e = cc
  scanned-le s tx (queued t) u n h e = cc
  scanned-le s tx (loaded t w) u n h e = cc
  scanned-le s tx (inserted t w) u n h e = cc
  scanned-le s tx (scanning t w m) u n h e = ground arith
  scanned-le s tx (passed t w) u n h e = ground arith
  scanned-le s tx (refused x) u n h e = cc

  abbrev pub place_of : Option Thread → Option (Commit × ℕ)
  place_of none = none
  place_of (some x) = place x.phase

  abbrev pub id_of : Option Commit → ℕ
  id_of none = 0
  id_of (some t) = t.id

  pub loaded-filled :
      (s : Race) (tx : TransactionInner) (p : Phase) (v : ℕ)
      → Stands s tx p
      → loaded_at p ≡ some v
      → (v ≤ s.commit_id + 1) × (v ≤ s.commit_id → is_some (SkipMap.get s.queue v) ≡ true)
  loaded-filled s tx (loaded t w) v h e =
      subst
        (λ (x : ℕ).
          (x ≤ s.commit_id + 1) × (x ≤ s.commit_id → is_some (SkipMap.get s.queue x) ≡ true))
        (ground (arith, e)) (h.1, h.2)
  loaded-filled s tx idle v h e = absurd cc
  loaded-filled s tx begun v h e = absurd cc
  loaded-filled s tx (queued t) v h e = absurd cc
  loaded-filled s tx (inserted t w) v h e = absurd cc
  loaded-filled s tx (scanning t w n) v h e = absurd cc
  loaded-filled s tx (passed t w) v h e = absurd cc
  loaded-filled s tx (refused x) v h e = absurd cc

  -- The commit id that must be the next while a phase lasts.
  abbrev pub newest_at : Phase → Option ℕ
  newest_at (inserted t v) = some v
  newest_at _ = none

  pub newest-next :
      (s : Race) (tx : TransactionInner) (p : Phase) (v : ℕ)
      → Stands s tx p
      → newest_at p ≡ some v
      → (v ≡ s.commit_id + 1) × ((t : Commit) × (place p ≡ some (t, v)))
  newest-next s tx (inserted t w) v h e = (ground arith, (t, ground arith))
  newest-next s tx idle v h e = absurd cc
  newest-next s tx begun v h e = absurd cc
  newest-next s tx (queued t) v h e = absurd cc
  newest-next s tx (loaded t w) v h e = absurd cc
  newest-next s tx (scanning t w n) v h e = absurd cc
  newest-next s tx (passed t w) v h e = absurd cc
  newest-next s tx (refused x) v h e = absurd cc

  -- A thread that does nothing stands as before, where its place keeps its entry, its next commit
  -- id stays the next, and the place that it loaded does not fall free.
  pub Stands-kept :
      (s s' : Race) (tx : TransactionInner) (p : Phase)
      → s.queue_id ≤ s'.queue_id
      → s.commit_id ≤ s'.commit_id
      → ((t : Commit) (v : ℕ) → place p ≡ some (t, v) → SkipMap.get s'.queue v ≡ some t)
      → ((v : ℕ) → newest_at p ≡ some v → v ≡ s'.commit_id + 1)
      → ((v : ℕ)
          → loaded_at p ≡ some v
          → v ≤ s'.commit_id
          → is_some (SkipMap.get s'.queue v) ≡ true)
      → Stands s tx p
      → Stands s' tx p
  Stands-kept s s' tx idle qi ci held new free h = tt
  Stands-kept s s' tx begun qi ci held new free h = omega arith
  Stands-kept s s' tx (queued t) qi ci held new free h = ground arith
  Stands-kept s s' tx (loaded t v) qi ci held new free h =
      ((omega arith, h.0.1, omega arith), omega arith, free v refl)
  Stands-kept s s' tx (inserted t v) qi ci held new free h =
      ((omega arith, h.0.1, omega arith), new v refl, held t v refl)
  Stands-kept s s' tx (scanning t v n) qi ci held new free h =
      ((omega arith, h.0.1, omega arith), omega arith, held t v refl, omega arith)
  Stands-kept s s' tx (passed t v) qi ci held new free h =
      ((omega arith, h.0.1, omega arith), omega arith, held t v refl)
  Stands-kept s s' tx (refused e) qi ci held new free h = tt
