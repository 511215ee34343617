-- ===== src/Race/Runs.antt =====
-- A run keeps the invariant as long as no turn takes an entry from a place that another thread has
-- loaded.
use mathlib.Core.Path.{fun_ext}
use stupid_kv.Base.{
  ℕ, zero, suc, ◌+◌, ◌^◌, ◌≡◌, inl, inr, refl, sym, ap, subst, ◌∙◌, Bool, true, false, not, ◌&&◌,
  Option, none, some, List, [], ◌∷◌, nat_ord, bytes_ord, arith, eqb, if◌then◌else◌, any, get_elem?,
  set, ltb, Option-cases, Crates,
}
use stupid_kv.Base.BTreeMap.{IsAscending}
use stupid_kv.Base.SkipMap
use stupid_kv.Versions.{is_some}
use stupid_kv.Queue.Disjoint.{IsReadset}
use stupid_kv.Tx.{TransactionInner}
use stupid_kv.Race.{
  Phase, idle, begun, queued, loaded, inserted, scanning, passed, refused, Thread, Race, loaded_at,
  taken, takes, act, turn, run, calm, smooth, start,
}
use stupid_kv.Race.Invariant.{own, place, Stands, IsRace, update}
use stupid_kv.Race.Steps.{act-Kept}

any-get_elem? :
    {A : Type 0} (p : A → Bool) (xs : List A) (j : ℕ) (x : A)
    → any p xs ≡ false
    → get_elem? xs j ≡ some x
    → p x ≡ false
unfolding any
any-get_elem? p [] j x h e = cc
any-get_elem? p (y ∷ ys) zero x h e = ground (arith, h, e)
any-get_elem? p (y ∷ ys) (suc j) x h e = any-get_elem? p ys j x (ground arith) e

get_elem?-set :
    {A : Type 0} (xs : List A) (i j : ℕ) (x y : A)
    → get_elem? xs i ≡ some y
    → get_elem? (set xs i x) j ≡ (if eqb j i then some x else get_elem? xs j)
get_elem?-set [] i j x y e = cc
get_elem?-set (z ∷ zs) zero zero x y e = refl
get_elem?-set (z ∷ zs) zero (suc j) x y e = ground arith
get_elem?-set (z ∷ zs) (suc i) zero x y e = ground arith
get_elem?-set (z ∷ zs) (suc i) (suc j) x y e = ground (arith, get_elem?-set zs i j x y e)

module _ ⦃c : Crates⦄ where
  untaken :
      (s s' : Race) (o : Option ℕ) (w : ℕ)
      → taken s s' o ≡ false
      → o ≡ some w
      → is_some (SkipMap.get s.queue w) ≡ true
      → is_some (SkipMap.get s'.queue w) ≡ true
  untaken s s' none w h e f = cc
  untaken s s' (some x) w h e f =
      let same : x ≡ w = ground (arith, e) in
      let before = ap (λ (y : ℕ). is_some (SkipMap.get s.queue y)) same ∙ f in
      sym (ap (λ (y : ℕ). is_some (SkipMap.get s'.queue y)) same) ∙ ground (arith, h, before)

  rethread :
      (s : Race) (look : ℕ → Option Thread) (threads : List Thread)
      → IsRace s look
      → IsRace (record s { threads = threads }) look
  rethread s look threads r = record {
    each = λ j th h. record {
      ascending = (r.each j th h).ascending;
      readset = (r.each j th h).readset;
      stands = restands th.tx th.phase (r.each j th h).stands;
    };
    distinct = r.distinct;
    owned = r.owned;
    checked = r.checked;
  }
    where
      restands :
          (tx : TransactionInner) (p : Phase)
          → Stands s tx p
          → Stands (record s { threads = threads }) tx p
      restands tx idle h = h
      restands tx begun h = h
      restands tx (queued t) h = h
      restands tx (loaded t v) h = h
      restands tx (inserted t v) h = h
      restands tx (scanning t v n) h = h
      restands tx (passed t v) h = h
      restands tx (refused e) h = h

  calm_parts : (a b d : Bool) → (a && b && not d) ≡ true → (a ≡ true) × (b ≡ true) × (d ≡ false)
  calm_parts a b d h = ground arith

  abbrev after : Race → ℕ → Thread × Race → Race
  after s i t = record t.1 { threads = set s.threads i t.0 }

  turn_nobody : (s : Race) (i : ℕ) → get_elem? s.threads i ≡ none → turn s i ≡ s
  unfolding turn
  turn_nobody s i e = rw (e, turn) refl

  turn-act :
      (s : Race) (i : ℕ) (th : Thread)
      → get_elem? s.threads i ≡ some th
      → turn s i ≡ after s i (act s th th.phase)
  unfolding turn
  turn-act s i th e = rw (e, turn) refl

  after-IsRace :
      (s : Race) (i : ℕ) (th : Thread) (t : Thread × Race)
      → get_elem? s.threads i ≡ some th
      → IsRace t.1 (update (get_elem? s.threads) i t.0)
      → IsRace (after s i t) (get_elem? (after s i t).threads)
  after-IsRace s i th t at r =
      subst (IsRace (after s i t)) (fun_ext (λ j. sym (get_elem?-set s.threads i j t.0 th at)))
        (rethread t.1 (update (get_elem? s.threads) i t.0) (set s.threads i t.0) r)

  -- A calm turn keeps the invariant.
  turn-IsRace :
      (s : Race) (i : ℕ)
      → calm s i ≡ true
      → IsRace s (get_elem? s.threads)
      → IsRace (turn s i) (get_elem? (turn s i).threads)
  unfolding calm
  turn-IsRace s i h r = elim (Option-cases (get_elem? s.threads i)) [
    | inl nobody ↦ subst (λ x. IsRace x (get_elem? x.threads)) (sym (turn_nobody s i nobody)) r
    | inr (th, at) ↦
        let same = turn-act s i th at in
        let (room, numbers, quiet) =
          calm_parts (ltb (s.commit_id + 1) (2 ^ 64)) (ltb (s.queue_id + 1) (2 ^ 64))
            (any (takes s i) s.threads) h in
        let kept =
          act-Kept s (get_elem? s.threads) i th r at (ground (arith, room))
            (ground (arith, numbers)) th.phase refl
            (λ j b w hb e f.
              subst (λ (x : Race). is_some (SkipMap.get x.queue w) ≡ true) same
                (untaken s (turn s i) (loaded_at b.phase) w
                  (any-get_elem? (takes s i) s.threads j b quiet hb) e f)) in
        subst (λ x. IsRace x (get_elem? x.threads)) (sym same)
          (after-IsRace s i th (act s th th.phase) at kept)
  ]

  run-IsRace :
      (schedule : List ℕ) (s : Race)
      → smooth s schedule ≡ true
      → IsRace s (get_elem? s.threads)
      → IsRace (run s schedule) (get_elem? (run s schedule).threads)
  unfolding run smooth
  run-IsRace [] s h r = r
  run-IsRace (i ∷ schedule) s h r =
      run-IsRace schedule (turn s i) (ground (arith, h)) (turn-IsRace s i (ground (arith, h)) r)

  -- A thread that has not begun, with its writes in order and a sound read filter.
  pub record IsReady (th : Thread) : Type 0 where
    pub waits : th.phase ≡ idle
    pub ascending : IsAscending th.tx.writeset
    pub readset : IsReadset th.tx.readset th.tx.readset_bloom

  abbrev pub Ready : List Thread → Type 0
  Ready threads = (j : ℕ) (th : Thread) → get_elem? threads j ≡ some th → IsReady th

  start-IsRace :
      (threads : List Thread) → Ready threads → IsRace (start threads) (get_elem? threads)
  start-IsRace threads ready = record {
    each = λ j th h. record {
      ascending = (ready j th h).ascending;
      readset = (ready j th h).readset;
      stands = subst (λ p. Stands (start threads) th.tx p) (sym (ready j th h).waits) tt;
    };
    distinct = λ i j a b t u ha hb e. absurd (cc (sym (ap own (ready i a ha).waits) ∙ e));
    owned = λ v t e. absurd (cc (sym (SkipMap.get-empty v) ∙ e));
    checked = λ i j a b t u v n ha hb e. absurd (cc (sym (ap place (ready i a ha).waits) ∙ e));
  }

  -- What holds after a run of threads that had not begun.
  pub reached :
      (threads : List Thread) (schedule : List ℕ)
      → Ready threads
      → smooth (start threads) schedule ≡ true
      → IsRace (run (start threads) schedule) (get_elem? (run (start threads) schedule).threads)
  reached threads schedule ready h =
      run-IsRace schedule (start threads) h (start-IsRace threads ready)
