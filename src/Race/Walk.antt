-- ===== src/Race/Walk.antt =====
-- The turns of a thread on its walk over the commit queue.
use stupid_kv.Base.{
  ℕ, suc, ◌≤◌, ◌<◌, ◌≡◌, inl, inr, refl, sym, ap, subst, ◌∙◌, true, Option, none, some, nat_ord,
  arith, eqb, eqb_iff, ltb, Bool-cases, Option-cases, Crates,
}
use stupid_kv.Base.SkipMap
use stupid_kv.Versions.{is_some}
use stupid_kv.Queue.{Commit}
use stupid_kv.Tx.Commit.{entry_conflict}
use stupid_kv.Race.{scanning, passed, Thread, Race, loaded_at, act, look_at}
use stupid_kv.Race.Invariant.{own, place, scanned, Stands, IsRace, update}
use stupid_kv.Race.Update.{at_update}
use stupid_kv.Race.Phases.{place-held}
use stupid_kv.Race.Turns.{quiet-IsRace}
use stupid_kv.Race.Counted.{without-IsRace}

module _ ⦃c : Crates⦄ (s : Race) (look : ℕ → Option Thread) (i : ℕ) (th : Thread)
    (r : IsRace s look) (at : look i ≡ some th) where
  -- A place after the turn was a place before it.
  old_place :
      (th' : Thread)
      → place th'.phase ≡ place th.phase
      → (j : ℕ) (a : Thread) (x : Commit) (w : ℕ) → update look i th' j ≡ some a
      → place a.phase ≡ some (x, w)
      → (k : ℕ) × (b : Thread) × (look k ≡ some b) × (place b.phase ≡ some (x, w))
  old_place th' same j a x w h e = elim (at_update look i th' j a h) [
    | inl (here, is) ↦ (i, th, at, sym same ∙ ap (λ (y : Thread). place y.phase) is ∙ e)
    | inr (other, h') ↦ (j, a, h', e)
  ]

  module _ (t : Commit) (v n : ℕ) (stays : th.phase ≡ scanning t v n) where
    on_walk : Stands s th.tx (scanning t v n)
    on_walk = subst (λ p. Stands s th.tx p) stays (r.each i th at).stands

    -- What the walk has come past, one place further.
    further :
        ((x : Commit) → SkipMap.get s.queue n ≡ some x → entry_conflict th.tx t x ≡ none)
        → (k : ℕ) (b : Thread) (x : Commit) (w : ℕ) → look k ≡ some b
        → place b.phase ≡ some (x, w)
        → th.tx.commit < w
        → w < suc n
        → entry_conflict th.tx t x ≡ none
    further clear k b x w h e low high = elim (Bool-cases (eqb w n)) [
      | inl here ↦ clear x (
          ap (SkipMap.get s.queue) (sym ((eqb_iff w n).0 here))
          ∙ (place-held s b.tx b.phase x w (r.each k b h).stands e).0)
      | inr other ↦
          r.checked k i b th x t w n h at e (ap scanned stays) low
            (ground (arith, eqb_iff w n, other))
    ]

    abbrev goes_on : Thread
    goes_on = record th { phase = scanning t v (suc n) }

    goes_on-IsRace :
        n < v
        → ((x : Commit) → SkipMap.get s.queue n ≡ some x → entry_conflict th.tx t x ≡ none)
        → IsRace s (update look i goes_on)
    goes_on-IsRace before clear =
        quiet-IsRace s s look i th goes_on r at refl refl (omega arith)
          (record {
            ascending = (r.each i th at).ascending;
            readset = (r.each i th at).readset;
            stands = (on_walk.0, on_walk.1, on_walk.2, omega (arith, on_walk.1));
          })
          (λ u e. inl (ap own stays ∙ e)) (sym (ap place stays))
          (λ j a x u w m h e eu low high.
            let (k, b, h', e') = old_place goes_on (sym (ap place stays)) j a x w h e in
            subst (λ (y : Commit). entry_conflict th.tx y x ≡ none) (ground (arith, eu))
              (further clear k b x w h' e' low (ground (arith, eu))))

    abbrev ends : Thread
    ends = record th { phase = passed t v }

    ends-IsRace : v ≤ n → IsRace s (update look i ends)
    ends-IsRace over =
        quiet-IsRace s s look i th ends r at refl refl (omega arith)
          (record {
            ascending = (r.each i th at).ascending;
            readset = (r.each i th at).readset;
            stands = (on_walk.0, on_walk.1, on_walk.2);
          })
          (λ u e. inl (ap own stays ∙ e)) (sym (ap place stays))
          (λ j a x u w m h e eu low high.
            let (k, b, h', e') = old_place ends (sym (ap place stays)) j a x w h e in
            subst (λ (y : Commit). entry_conflict th.tx y x ≡ none) (ground (arith, eu))
              (r.checked k i b th x t w n h' at e' (ap scanned stays) low (ground (arith, eu))))

    abbrev Calm : Thread × Race → Type 0
    Calm after =
        (j : ℕ) (b : Thread) (w : ℕ)
        → look j ≡ some b
        → loaded_at b.phase ≡ some w
        → is_some (SkipMap.get s.queue w) ≡ true
        → is_some (SkipMap.get after.1.queue w) ≡ true

    abbrev Kept : Thread × Race → Type 0
    Kept after = IsRace after.1 (update look i after.0)

    looked-Kept :
        (o : Option Commit)
        → SkipMap.get s.queue n ≡ o
        → n < v
        → Calm (look_at s th t v n o)
        → Kept (look_at s th t v n o)
    looked-Kept none empty before calm = goes_on-IsRace before (λ x e. absurd (cc (empty, e)))
    looked-Kept (some u) found before calm = elim (Option-cases (entry_conflict th.tx t u)) [
      | inl free ↦
          rw (free, look_at)
            (goes_on-IsRace before (λ x e.
              subst (λ (y : Commit). entry_conflict th.tx t y ≡ none) (ground (arith, found, e))
                free))
      | inr (clash, hit) ↦
          rw (hit, look_at)
            (without-IsRace s look i th t v n r at clash stays
              (λ j b w h e filled. rw (hit, look_at) at (calm j b w h e filled)))
    ]

    -- A turn on the walk, where it takes no entry from a place that another thread has loaded.
    pub scan-IsRace : Calm (act s th (scanning t v n)) → Kept (act s th (scanning t v n))
    unfolding act
    scan-IsRace calm = elim (Bool-cases (ltb n v)) [
      | inr over ↦ rw over (ends-IsRace (ground (arith, over)))
      | inl before ↦ rw before (
          looked-Kept (SkipMap.get s.queue n) refl (ground (arith, before))
            (λ j b w h e filled. rw before at (calm j b w h e filled)))
    ]
