-- ===== src/Counters/Release.antt =====
-- `release_counter` takes one holder off, and the last holder takes the entry out of the map.
use stupid_kv.Base.{
  ℕ, ◌+◌, ◌<◌, ◌≡◌, Bool, true, false, Option, none, some, ◌∷◌, nat_ord, arith, ◌==◌, if◌then◌else◌,
  set, length-set, Crates, Bool-cases, inl, inr,
}
use stupid_kv.Base.SkipMap
use stupid_kv.Counters.{
  Counters, load, store, rollback, counter_tombstone, release_counter, remove_own,
}
use stupid_kv.Counters.Holders.{Live, holders, IsCount, AllHeld-change, get_or-set}

module _ ⦃c : Crates⦄ where
  -- The removal that the last holder makes, by the key.
  abbrev pub remove_if : Bool → Counters → ℕ → Counters
  remove_if b cs v = if b then record cs { map = SkipMap.remove cs.map v } else cs

module _ ⦃c : Crates⦄ (cs : Counters) (live : Live) (v r : ℕ)
    (inv : IsCount cs ((v, r) ∷ live)) where
  load-held : load cs r ≡ holders v live + 1
  unfolding holders
  load-held = ground (arith, inv.counted v r inv.held.0)

  lower : 0 < holders v live → IsCount (store cs r (holders v live)) live
  unfolding holders
  lower more = record {
    held = AllHeld-change cs (store cs r (holders v live)) live (λ w s p q. q) inv.held.1;
    there = λ w s f. omega (arith, length-set cs.cells r (holders v live), inv.there w s f);
    counted = λ w s f. ground (
      arith,
      get_or-set cs.cells r s (holders v live) (inv.there v r inv.held.0),
      inv.own v w r inv.held.0,
      inv.counted w s f,
      inv.held.0,
    );
    positive = λ w s f. ground (arith, inv.positive w s f);
    own = inv.own;
  }

  abbrev dropped : Counters
  dropped = record { map = SkipMap.remove cs.map v; cells = set cs.cells r counter_tombstone }

  dropped_get :
      (w : ℕ) → SkipMap.get dropped.map w ≡ (if w == v then none else SkipMap.get cs.map w)
  dropped_get = SkipMap.get-remove cs.map v

  drop_last : holders v live ≡ 0 → IsCount dropped live
  unfolding holders
  drop_last none_left = record {
    held = AllHeld-change cs dropped live (λ w s p q. ground (arith, dropped_get w)) inv.held.1;
    there = λ w s f.
        ground (arith, dropped_get w, length-set cs.cells r counter_tombstone, inv.there w s);
    counted = λ w s f. ground (
      arith,
      dropped_get w,
      get_or-set cs.cells r s counter_tombstone (inv.there v r inv.held.0),
      inv.own v w r inv.held.0,
      inv.counted w s,
    );
    positive = λ w s f. ground (arith, dropped_get w, inv.positive w s);
    own = λ w x s f g. ground (arith, dropped_get w, dropped_get x, inv.own w x s);
  }

  abbrev pub Released : Option (Counters × Bool) → Type 0
  Released none = ⊥
  Released (some (ds, b)) = IsCount (remove_if b ds v) live × (SkipMap.get ds.map v ≡ some r)

  release_last :
      holders v live ≡ 0 → release_counter cs r ≡ some (store cs r counter_tombstone, true)
  unfolding release_counter
  release_last h = ground (arith, load-held)

  release_more :
      0 < holders v live → release_counter cs r ≡ some (store cs r (holders v live), false)
  unfolding release_counter
  release_more h = ground (arith, load-held)

  -- Where the counters count a holder of the snapshot, `release_counter` returns; and when the
  -- caller removes the entry exactly where it is told to, the counters count the other holders,
  -- and the entry that it removes is that of the released counter.
  pub release-Released : Released (release_counter cs r)
  release-Released = elim (Bool-cases (holders v live == 0)) [
    | inl last ↦ rw (release_last (ground arith)) (drop_last (ground arith), inv.held.0)
    | inr more ↦ rw (release_more (ground arith)) (lower (ground arith), inv.held.0)
  ]

  pub rollback-IsCount : (ds : Counters) × (rollback cs v r ≡ some ds) × IsCount ds live
  unfolding rollback remove_own
  rollback-IsCount = elim (Bool-cases (holders v live == 0)) [
    | inl last ↦ (
      dropped,
      rw (release_last (ground arith), rollback) (ground (arith, inv.held.0)),
      drop_last (ground arith),
    )
    | inr more ↦ (
      store cs r (holders v live),
      rw (release_more (ground arith), rollback),
      lower (ground arith),
    )
  ]
