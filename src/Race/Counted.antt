-- ===== src/Race/Counted.antt =====
-- The turns after the insertion that change what the other threads see: the step of the commit id,
-- and a refusal, which takes the entry out of the queue.
use stupid_kv.Base.{
  ℕ, ◌+◌, ◌≤◌, ◌<◌, ◌≡◌, ◌≢◌, inl, inr, refl, sym, ap, subst, ◌∙◌, true, Option, some, nat_ord,
  arith, eqb, eqb_iff, Bool-cases, Crates,
}
use stupid_kv.Base.SkipMap
use stupid_kv.Versions.{is_some}
use stupid_kv.Queue.{Commit}
use stupid_kv.Tx.{Error}
use stupid_kv.Race.{inserted, scanning, refused, Thread, Race, loaded_at}
use stupid_kv.Race.Invariant.{own, place, scanned, Stands, IsThread, IsRace, update}
use stupid_kv.Race.Update.{distinct_update, checked_update, each_update, owned_update, alone}
use stupid_kv.Race.Phases.{place-held, loaded-filled, newest-next, Stands-kept}
use stupid_kv.Race.Turns.{other-IsThread}

module _ ⦃c : Crates⦄ (s : Race) (look : ℕ → Option Thread) (i : ℕ) (th : Thread) (t : Commit)
    (v n : ℕ) (r : IsRace s look) (at : look i ≡ some th) where
  module _ (id : ℕ) (step : id ≡ s.commit_id + 1) where
    abbrev pub counted : Race
    counted = record s { commit_id = id }

    abbrev pub walks : Thread
    walks = record th { phase = scanning t v n }

    module _ (stays : th.phase ≡ inserted t v) (from : n ≡ th.tx.commit + 1) where
      entering : Stands s th.tx (inserted t v)
      entering = subst (λ p. Stands s th.tx p) stays (r.each i th at).stands

      filled_next :
          (b : Thread) (w : ℕ)
          → Stands s b.tx b.phase
          → loaded_at b.phase ≡ some w
          → w ≤ id
          → is_some (SkipMap.get s.queue w) ≡ true
      filled_next b w old e le = elim (Bool-cases (eqb w v)) [
        | inl here ↦ rw (ap (SkipMap.get s.queue) ((eqb_iff w v).0 here) ∙ entering.2) refl
        | inr other ↦
            (loaded-filled s b.tx b.phase w old e).1
              (ground (arith, eqb_iff w v, other, entering.1))
      ]

      counted_others : (j : ℕ) (b : Thread) → j ≢ i → look j ≡ some b → IsThread counted b
      counted_others j b jn h =
          let old = (r.each j b h).stands in
          other-IsThread s counted look i th walks r at j b h (
            Stands-kept s counted b.tx b.phase (omega arith) (omega arith)
              (λ u w e. (place-held s b.tx b.phase u w old e).0)
              (λ w e.
                let (next, (u, placed)) = newest-next s b.tx b.phase w old e in
                let same = entering.1 in
                absurd (
                  jn (
                    sym (
                      alone s counted look i th walks r at t u v j b (ap place stays) h
                        (placed ∙ ap (λ (x : ℕ). some (u, x)) (omega arith))))))
              (λ w e le. filled_next b w old e le) old)

      past :
          (u : Commit) (m w : ℕ) → scanned walks.phase ≡ some (u, m) → th.tx.commit < w → w < m → ⊥
      past u m w e low high = ground (arith, from, e)

      -- The commit id comes to the entry that was inserted, and the walk starts.
      pub counted-IsRace : IsRace counted (update look i walks)
      counted-IsRace = record {
        each = each_update s counted look i th walks r at counted_others (record {
          ascending = (r.each i th at).ascending;
          readset = (r.each i th at).readset;
          stands = (
            (entering.0.0, entering.0.1, omega (arith, entering.0.2)),
            omega (arith, entering.1),
            entering.2,
            omega (arith, entering.0.2),
          );
        });
        distinct = distinct_update s counted look i th walks r at (λ u e. inl (ap own stays ∙ e));
        owned = λ w u e.
            owned_update s counted look i th walks r at w u (λ p. sym (ap place stays) ∙ p) e;
        checked =
            checked_update s counted look i th walks r at
              (λ k b x u w m hb et eu. r.checked i k th b x u w m at hb (ap place stays ∙ et) eu)
              (λ k b x u w m hb et eu low high. absurd (past u m w eu low high));
      }

  module _ (e : Error) where
    abbrev pub without : Race
    without = record s { queue = SkipMap.remove s.queue v }

    abbrev pub refuses : Thread
    refuses = record th { phase = refused e }

    module _ (stays : th.phase ≡ scanning t v n)
        (calm : (j : ℕ) (b : Thread) (w : ℕ)
          → look j ≡ some b
          → loaded_at b.phase ≡ some w
          → is_some (SkipMap.get s.queue w) ≡ true
          → is_some (SkipMap.get without.queue w) ≡ true) where
      without_get :
          (w : ℕ) (u : Commit)
          → SkipMap.get without.queue w ≡ some u
          → (w ≢ v) × (SkipMap.get s.queue w ≡ some u)
      without_get w u h = elim (Bool-cases (eqb w v)) [
        | inl here ↦ absurd (ground (arith, SkipMap.get-remove s.queue v w, here, h))
        | inr other ↦ (
          λ same. cc ((eqb_iff w v).1 same),
          ground (arith, SkipMap.get-remove s.queue v w, other, h),
        )
      ]

      held_other :
          (j : ℕ) (b : Thread) (u : Commit) (w : ℕ)
          → j ≢ i
          → look j ≡ some b
          → place b.phase ≡ some (u, w)
          → SkipMap.get s.queue w ≡ some u
          → SkipMap.get without.queue w ≡ some u
      held_other j b u w jn h p at_w = elim (Bool-cases (eqb w v)) [
        | inl here ↦ absurd (
            jn (
              sym (
                alone s without look i th refuses r at t u v j b (ap place stays) h
                  (p ∙ ap (λ (x : ℕ). some (u, x)) ((eqb_iff w v).0 here)))))
        | inr other ↦ ground (arith, SkipMap.get-remove s.queue v w, other, at_w)
      ]

      without_others : (j : ℕ) (b : Thread) → j ≢ i → look j ≡ some b → IsThread without b
      without_others j b jn h =
          let old = (r.each j b h).stands in
          other-IsThread s without look i th refuses r at j b h (
            Stands-kept s without b.tx b.phase (omega arith) (omega arith)
              (λ u w p. held_other j b u w jn h p (place-held s b.tx b.phase u w old p).0)
              (λ w p. (newest-next s b.tx b.phase w old p).0)
              (λ w p le. calm j b w h p ((loaded-filled s b.tx b.phase w old p).1 le)) old)

      same_place : (w : ℕ) (u : Commit) → place th.phase ≡ some (u, w) → w ≡ v
      same_place w u p = ground (arith, sym (ap place stays) ∙ p)

      -- The entry of a refused commit leaves the queue.
      pub without-IsRace : IsRace without (update look i refuses)
      without-IsRace = record {
        each = each_update s without look i th refuses r at without_others (record {
          ascending = (r.each i th at).ascending;
          readset = (r.each i th at).readset;
          stands = tt;
        });
        distinct = distinct_update s without look i th refuses r at (λ u p. absurd cc);
        owned = λ w u h.
            let (other, old) = without_get w u h in
            owned_update s without look i th refuses r at w u
              (λ p. absurd (other (same_place w u p))) old;
        checked =
            checked_update s without look i th refuses r at (λ k b x u w m hb et. absurd cc)
              (λ k b x u w m hb et eu. absurd cc);
      }
