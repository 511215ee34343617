-- ===== src/Race/Turns.antt =====
-- The kinds of turns: one that leaves the queue and the commit id as they are, the insertion of an
-- entry, the step of the commit id, and a refusal.
use stupid_kv.Base.{
  ℕ, ◌+◌, ◌≤◌, ◌<◌, ◌≡◌, ◌≢◌, inl, inr, refl, sym, ap, subst, ◌∙◌, true, Option, none, some,
  nat_ord, arith, eqb, eqb_iff, eqb_refl, Bool-cases, Crates,
}
use stupid_kv.Base.SkipMap
use stupid_kv.Versions.{is_some}
use stupid_kv.Queue.{Commit}
use stupid_kv.Race.{loaded, inserted, Thread, Race}
use stupid_kv.Race.Invariant.{own, place, Stands, IsThread, IsRace, update}
use stupid_kv.Race.Update.{Same, Walks, distinct_update, checked_update, each_update, owned_update}
use stupid_kv.Race.Phases.{place-held, scanned-le, loaded-filled, newest-next, Stands-kept}

module _ ⦃c : Crates⦄ (s s' : Race) (look : ℕ → Option Thread) (i : ℕ) (th th' : Thread)
    (r : IsRace s look) (at : look i ≡ some th) where
  -- The others stand as before.
  abbrev Others : Type 0
  Others = (j : ℕ) (b : Thread) → j ≢ i → look j ≡ some b → IsThread s' b

  pub other-IsThread :
      (j : ℕ) (b : Thread) → look j ≡ some b → Stands s' b.tx b.phase → IsThread s' b
  other-IsThread j b h stands = record {
    ascending = (r.each j b h).ascending;
    readset = (r.each j b h).readset;
    stands = stands;
  }

  module _ (queue : s'.queue ≡ s.queue) (commit_id : s'.commit_id ≡ s.commit_id)
      (queue_id : s.queue_id ≤ s'.queue_id) where
    same_get : (v : ℕ) → SkipMap.get s'.queue v ≡ SkipMap.get s.queue v
    same_get v = ap (λ (q : c.SkipMap ℕ Commit). SkipMap.get q v) queue

    quiet_others : Others
    quiet_others j b jn h =
        let old = (r.each j b h).stands in
        other-IsThread j b h (
          Stands-kept s s' b.tx b.phase queue_id (omega arith)
            (λ t v e. same_get v ∙ (place-held s b.tx b.phase t v old e).0)
            (λ v e. omega (arith, (newest-next s b.tx b.phase v old e).0))
            (λ v e le. rw (same_get v) ((loaded-filled s b.tx b.phase v old e).1 (omega arith)))
            old)

    -- A turn that leaves the queue and the commit id as they are.
    pub quiet-IsRace :
        IsThread s' th'
        → Same s s' look i th th' r at
        → place th'.phase ≡ place th.phase
        → Walks s s' look i th th' r at
        → IsRace s' (update look i th')
    quiet-IsRace mine same stays walks = record {
      each = each_update s s' look i th th' r at quiet_others mine;
      distinct = distinct_update s s' look i th th' r at same;
      owned =
          λ v t e. owned_update s s' look i th th' r at v t (λ p. stays ∙ p) (sym (same_get v) ∙ e);
      checked =
          checked_update s s' look i th th' r at
            (λ k b t u v n hb et eu low high.
              r.checked i k th b t u v n at hb (sym stays ∙ et) eu low high)
            walks;
    }

module _ ⦃c : Crates⦄ (s : Race) (look : ℕ → Option Thread) (i : ℕ) (th : Thread) (t : Commit)
    (v : ℕ) (r : IsRace s look) (at : look i ≡ some th) where
  abbrev pub entered : Race
  entered = record s { queue = SkipMap.insert s.queue v t }

  abbrev pub enters : Thread
  enters = record th { phase = inserted t v }

  module _ (loads : th.phase ≡ loaded t v) (next : v ≡ s.commit_id + 1)
      (free : SkipMap.get s.queue v ≡ none) where
    no_place : place th.phase ≡ none
    no_place = ap place loads

    entered_get :
        (w : ℕ) (u : Commit) → SkipMap.get s.queue w ≡ some u → SkipMap.get entered.queue w ≡ some u
    entered_get w u e = ground (arith, SkipMap.get-insert s.queue v t w, eqb_iff w v, free, e)

    entered_some :
        (w : ℕ)
        → is_some (SkipMap.get s.queue w) ≡ true
        → is_some (SkipMap.get entered.queue w) ≡ true
    entered_some w e = ground (arith, SkipMap.get-insert s.queue v t w, e)

    entering : Stands s th.tx (loaded t v)
    entering = subst (λ p. Stands s th.tx p) loads (r.each i th at).stands

    place_below :
        (x : Commit) (w n : ℕ) → place enters.phase ≡ some (x, w) → w < n → n ≤ s.commit_id + 1 → ⊥
    place_below x w n e low high = ground (arith, next, e)

    entered_owned :
        (w : ℕ) (u : Commit)
        → SkipMap.get entered.queue w ≡ some u
        → (j : ℕ) × (b : Thread) × (update look i enters j ≡ some b) × (place b.phase ≡ some (u, w))
    entered_owned w u e = elim (Bool-cases (eqb w v)) [
      | inl here ↦ (
        i,
        enters,
        rw (eqb_refl i) refl,
        ground (arith, SkipMap.get-insert s.queue v t w, eqb_iff w v, here, e),
      )
      | inr other ↦
          owned_update s entered look i th enters r at w u (λ p. absurd (cc (no_place, p)))
            (ground (arith, SkipMap.get-insert s.queue v t w, other, e))
    ]

    entered_others : (j : ℕ) (b : Thread) → j ≢ i → look j ≡ some b → IsThread entered b
    entered_others j b jn h =
        let old = (r.each j b h).stands in
        other-IsThread s entered look i th enters r at j b h (
          Stands-kept s entered b.tx b.phase (omega arith) (omega arith)
            (λ u w e. entered_get w u (place-held s b.tx b.phase u w old e).0)
            (λ w e. (newest-next s b.tx b.phase w old e).0)
            (λ w e le. entered_some w ((loaded-filled s b.tx b.phase w old e).1 le)) old)

    -- An entry comes to the next commit id, which is free.
    pub entered-IsRace : IsRace entered (update look i enters)
    entered-IsRace = record {
      each = each_update s entered look i th enters r at entered_others (record {
        ascending = (r.each i th at).ascending;
        readset = (r.each i th at).readset;
        stands = (entering.0, next, SkipMap.get-insert s.queue v t v ∙ rw (eqb_refl v) refl);
      });
      distinct = distinct_update s entered look i th enters r at (λ u e. inl (ap own loads ∙ e));
      owned = λ w u e. entered_owned w u e;
      checked =
          checked_update s entered look i th enters r at
            (λ k b x u w n hb et eu low high.
              absurd (
                place_below x w n et high
                  (scanned-le s b.tx b.phase u n (r.each k b hb).stands eu)))
            (λ k b x u w n hb et eu. absurd cc);
    }
