-- ===== src/Race/Safety.antt =====
-- What holds of the commits that come to the end of their walk.
use stupid_kv.Base.{
  ℕ, ◌<◌, ◌≡◌, ◌≢◌, sym, ap, subst, ◌∙◌, true, some, none, Option, List, nat_ord, get_elem?, Crates,
}
use stupid_kv.Base.SkipMap
use stupid_kv.Queue.{Commit}
use stupid_kv.Tx.Commit.Conflict.{shared, entry_conflict-eq}
use stupid_kv.Race.{passed, Thread, Race, run, smooth, start}
use stupid_kv.Race.Invariant.{own, place, scanned, Stands, IsRace}
use stupid_kv.Race.Runs.{Ready, reached}

module _ ⦃c : Crates⦄ (s : Race) (look : ℕ → Option Thread) (r : IsRace s look) where
  Stands-passed :
      (i : ℕ) (a : Thread) (t : Commit) (v : ℕ)
      → look i ≡ some a
      → a.phase ≡ passed t v
      → Stands s a.tx (passed t v)
  Stands-passed i a t v h e = subst (λ p. Stands s a.tx p) e (r.each i a h).stands

  module _ (i j : ℕ) (a b : Thread) (t u : Commit) (v w : ℕ) (ha : look i ≡ some a)
      (hb : look j ≡ some b) (pa : a.phase ≡ passed t v) (pb : b.phase ≡ passed u w) where
    one_place : v ≡ w → i ≡ j
    one_place same =
        let here = (Stands-passed i a t v ha pa).2 in
        let there = (Stands-passed j b u w hb pb).2 in
        r.distinct i j a b t u ha hb (ap own pa) (ap own pb)
          (ap id_of (sym here ∙ ap (SkipMap.get s.queue) same ∙ there))
      where
        id_of : Option Commit → ℕ
        id_of none = 0
        id_of (some x) = x.id

    nothing_shared : b.tx.commit < v → v < w → shared b.tx u t ≡ none
    nothing_shared began before =
        sym (
          entry_conflict-eq b.tx u t (Stands-passed j b u w hb pb).0.1
            (Stands-passed i a t v ha pa).0.1 (r.each j b hb).readset)
        ∙ r.checked i j a b t u v w ha hb (ap place pa) (ap scanned pb) began before

-- Threads whose commits overlap in any order, where no turn takes an entry out of the place of the
-- commit queue that another thread has loaded for its next try, and the commit id and the numbers of
-- the entries stay below 2^64: two of them that have come to the end of their walk have different
-- places in the queue; and where the one with the later place began its transaction before the
-- place of the other, it wrote no key that the other wrote and, under serializable isolation, it
-- read none.
pub first_committer_wins :
    ⦃c : Crates⦄ (threads : List Thread) (schedule : List ℕ)
    → Ready threads
    → smooth (start threads) schedule ≡ true
    → (i j : ℕ) (a b : Thread) (t u : Commit) (v w : ℕ)
    → get_elem? (run (start threads) schedule).threads i ≡ some a
    → get_elem? (run (start threads) schedule).threads j ≡ some b
    → a.phase ≡ passed t v
    → b.phase ≡ passed u w
    → i ≢ j
    → (v ≢ w) × (b.tx.commit < v → v < w → shared b.tx u t ≡ none)
first_committer_wins threads schedule ready calm i j a b t u v w ha hb pa pb other =
    let s = run (start threads) schedule in
    let r = reached threads schedule ready calm in
    (
      λ same. other (one_place s (get_elem? s.threads) r i j a b t u v w ha hb pa pb same),
      nothing_shared s (get_elem? s.threads) r i j a b t u v w ha hb pa pb,
    )
