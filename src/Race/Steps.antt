-- ===== src/Race/Steps.antt =====
-- The next access of a thread keeps the invariant, phase by phase.
use mathlib.Core.Path.{fun_ext}
use stupid_kv.Base.{
  ℕ, ◌+◌, ◌^◌, ◌≤◌, ◌<◌, ◌≡◌, inl, inr, refl, sym, ap, subst, ◌∙◌, true, false, Option, none, some,
  nat_ord, arith, eqb, eqb_iff, ◌==◌, add_u64, Bool-cases, Option-cases, Crates,
}
use stupid_kv.Base.SkipMap
use stupid_kv.Versions.{is_some}
use stupid_kv.Queue.{Commit, Writeset}
use stupid_kv.Tx.Commit.{commit_entry}
use stupid_kv.Tx.Commit.Entry.{commit_entry-IsCommit}
use stupid_kv.Race.{
  Phase, idle, begun, queued, loaded, inserted, scanning, passed, refused, Thread, Race, loaded_at,
  act, calm,
}
use stupid_kv.Race.Invariant.{own, place, scanned, Stands, IsThread, IsRace, update}
use stupid_kv.Race.Update.{Same}
use stupid_kv.Race.Phases.{loaded-filled, place_of, id_of, place-own}
use stupid_kv.Race.Turns.{quiet-IsRace, entered-IsRace}
use stupid_kv.Race.Counted.{counted-IsRace}
use stupid_kv.Race.Walk.{scan-IsRace}

module _ ⦃c : Crates⦄ (s : Race) (look : ℕ → Option Thread) (i : ℕ) (th : Thread)
    (r : IsRace s look) (at : look i ≡ some th) where
  abbrev pub Kept : Thread × Race → Type 0
  Kept after = IsRace after.1 (update look i after.0)

  -- A quiet turn of a thread that has no walk behind it.
  unwalked :
      (s' : Race) (th' : Thread)
      → s'.queue ≡ s.queue
      → s'.commit_id ≡ s.commit_id
      → s.queue_id ≤ s'.queue_id
      → IsThread s' th'
      → Same s s' look i th th' r at
      → place th'.phase ≡ place th.phase
      → scanned th'.phase ≡ none
      → IsRace s' (update look i th')
  unwalked s' th' queue commit_id queue_id mine same stays still =
      quiet-IsRace s s' look i th th' r at queue commit_id queue_id mine same stays
        (λ j a t u v n h e eu. absurd (cc (still, eu)))

  stood : (p : Phase) → th.phase ≡ p → Stands s th.tx p
  stood p e = subst (λ q. Stands s th.tx q) e (r.each i th at).stands

  module _ (room : s.commit_id + 1 < 2 ^ 64) (numbers : s.queue_id + 1 < 2 ^ 64) where
    idle-Kept : th.phase ≡ idle → Kept (act s th idle)
    unfolding act
    idle-Kept e =
        unwalked s _ refl refl (omega arith)
          (record {
            ascending = (r.each i th at).ascending;
            readset = (r.each i th at).readset;
            stands = omega arith;
          })
          (λ u h. absurd cc) (sym (ap place e)) refl

    new_number :
        (w : Writeset) (u : Commit)
        → some (commit_entry w (add_u64 s.queue_id 1)) ≡ some u
        → s.queue_id < u.id
    unfolding commit_entry
    new_number w u e =
        subst (λ (o : Option Commit). s.queue_id < id_of o) e (omega (arith, numbers))

    begun-Kept : th.phase ≡ begun → Kept (act s th begun)
    unfolding act commit_entry
    begun-Kept e =
        unwalked _ _ refl refl (omega (arith, numbers))
          (record {
            ascending = (r.each i th at).ascending;
            readset = (r.each i th at).readset;
            stands = (
              omega arith,
              commit_entry-IsCommit th.tx.writeset (add_u64 s.queue_id 1)
                  (r.each i th at).ascending,
              stood begun e,
            );
          })
          (λ u h. inr (new_number th.tx.writeset u h)) (sym (ap place e)) refl

    queued-Kept : (t : Commit) → th.phase ≡ queued t → Kept (act s th (queued t))
    unfolding act
    queued-Kept t e =
        unwalked s _ refl refl (omega arith)
          (record {
            ascending = (r.each i th at).ascending;
            readset = (r.each i th at).readset;
            stands =
                (stood (queued t) e, omega (arith, room), λ le. absurd (omega (arith, room, le)));
          })
          (λ u h. inl (ap own e ∙ h)) (sym (ap place e)) refl

    -- The place that was loaded is the next, or it has an entry.
    next_free :
        (t : Commit) (v : ℕ)
        → th.phase ≡ loaded t v
        → SkipMap.get s.queue v ≡ none
        → v ≡ s.commit_id + 1
    next_free t v e free =
        let (le, filled) = loaded-filled s th.tx (loaded t v) v (stood (loaded t v) e) refl in
        ground (arith, free, filled)

    -- The entry at the place is that of another thread.
    other_number :
        (t u : Commit) (v : ℕ)
        → th.phase ≡ loaded t v
        → SkipMap.get s.queue v ≡ some u
        → (t.id == u.id) ≡ false
    other_number t u v e found = elim (Bool-cases (t.id == u.id)) [
      | inr other ↦ other
      | inl same ↦
          let (j, b, h, placed) = r.owned v u found in
          let here =
            r.distinct i j th b t u at h (ap own e) (place-own b.phase u v placed)
              (ground (arith, same)) in
          absurd (cc (sym (ap place e) ∙ ap place_of (sym at ∙ ap look here ∙ h) ∙ placed))
    ]

    own_number : (t : Commit) → (t.id == t.id) ≡ true
    own_number t = ground arith

    first :
        (t : Commit) (v : ℕ)
        → SkipMap.get s.queue v ≡ none
        → SkipMap.get_or_insert s.queue v t ≡ (SkipMap.insert s.queue v t, t)
    first t v e = rw (e, SkipMap.get_or_insert) refl

    later :
        (t u : Commit) (v : ℕ)
        → SkipMap.get s.queue v ≡ some u
        → SkipMap.get_or_insert s.queue v t ≡ (s.queue, u)
    later t u v e = rw (e, SkipMap.get_or_insert) refl

    loaded-Kept : (t : Commit) (v : ℕ) → th.phase ≡ loaded t v → Kept (act s th (loaded t v))
    unfolding act
    loaded-Kept t v e = elim (Option-cases (SkipMap.get s.queue v)) [
      | inl free ↦
          rw (first t v free)
            (rw (own_number t) (entered-IsRace s look i th t v r at e (next_free t v e free) free))
      | inr (u, found) ↦ rw (later t u v found) (
          rw (other_number t u v e found) (
            unwalked s _ refl refl (omega arith)
              (record {
                ascending = (r.each i th at).ascending;
                readset = (r.each i th at).readset;
                stands = (stood (loaded t v) e).0;
              })
              (λ w h. inl (ap own e ∙ h)) (sym (ap place e)) refl))
    ]

    inserted-Kept : (t : Commit) (v : ℕ) → th.phase ≡ inserted t v → Kept (act s th (inserted t v))
    unfolding act
    inserted-Kept t v e =
        counted-IsRace s look i th t v (add_u64 th.tx.commit 1) r at (add_u64 s.commit_id 1)
          (omega (arith, room)) e (let le = (stood (inserted t v) e).0.2 in omega (arith, room, le))

    still-Kept : (p : Phase) → th.phase ≡ p → act s th p ≡ (th, s) → Kept (act s th p)
    still-Kept p e same = subst Kept (sym same) (subst (IsRace s) (fun_ext (λ j. unchanged j)) r)
      where
        unchanged : (j : ℕ) → look j ≡ update look i th j
        unchanged j = elim (Bool-cases (eqb j i)) [
          | inl here ↦ rw here (ap look ((eqb_iff j i).0 here) ∙ at)
          | inr other ↦ rw other refl
        ]

    abbrev pub Calm : Race → Type 0
    Calm s' =
        (j : ℕ) (b : Thread) (w : ℕ)
        → look j ≡ some b
        → loaded_at b.phase ≡ some w
        → is_some (SkipMap.get s.queue w) ≡ true
        → is_some (SkipMap.get s'.queue w) ≡ true

    -- The next access of a thread, where it takes no entry from a place that another has loaded.
    pub act-Kept : (p : Phase) → th.phase ≡ p → Calm (act s th p).1 → Kept (act s th p)
    act-Kept idle e calm = idle-Kept e
    act-Kept begun e calm = begun-Kept e
    act-Kept (queued t) e calm = queued-Kept t e
    act-Kept (loaded t v) e calm = loaded-Kept t v e
    act-Kept (inserted t v) e calm = inserted-Kept t v e
    act-Kept (scanning t v n) e calm = scan-IsRace s look i th r at t v n e calm
    act-Kept (passed t v) e calm = still-Kept (passed t v) e (unfold act in refl)
    act-Kept (refused x) e calm = still-Kept (refused x) e (unfold act in refl)
