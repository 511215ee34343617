-- ===== src/Counters/Register.antt =====
-- `register_counter` adds one holder to the counter of the snapshot that it returns.
use stupid_kv.Base.{
  ℕ, ◌+◌, ◌<◌, ◌≡◌, refl, ◌∙◌, true, false, Option, none, some, List, [], ◌∷◌, ◌++◌, nat_ord, arith,
  ◌==◌, if◌then◌else◌, length, get_or, set, length-append, length-set, Crates, any, ◌⊎◌,
  Option-cases, Bool-cases, inl, inr,
}
use stupid_kv.Base.SkipMap
use stupid_kv.Counters.{
  Counters, Loads, load, store, slot, accepted, register_counter, counter_tombstone,
}
use stupid_kv.Counters.Release.{rollback-IsCount}
use stupid_kv.Counters.Holders.{
  Live, holders, IsCount, holders-none, AllHeld-change, holders-le, get_or-set, get_or-push,
}

get_or-beyond : (xs : List ℕ) → get_or xs (length xs) 0 ≡ 0
get_or-beyond [] = refl
get_or-beyond (x ∷ xs) = get_or-beyond xs

module _ ⦃c : Crates⦄ (cs : Counters) (live : Live) (v : ℕ) (inv : IsCount cs live) where
  module _ (r : ℕ) (e : SkipMap.get cs.map v ≡ some r) where
    raise_old : IsCount (store cs r (holders v live + 1)) ((v, r) ∷ live)
    unfolding holders
    raise_old = record {
      held = (e, AllHeld-change cs (store cs r (holders v live + 1)) live (λ w s p q. q) inv.held);
      there = λ w s f. omega (arith, length-set cs.cells r (holders v live + 1), inv.there w s f);
      counted = λ w s f. ground (
        arith,
        get_or-set cs.cells r s (holders v live + 1) (inv.there v r e),
        inv.own v w r e,
        inv.counted w s f,
      );
      positive = λ w s f. ground (arith, inv.positive w s f);
      own = inv.own;
    }

  module _ (e : SkipMap.get cs.map v ≡ none) where
    abbrev fresh : Counters
    fresh = record {
      map = SkipMap.insert cs.map v (length cs.cells);
      cells = set (cs.cells ++ 0 ∷ []) (length cs.cells) 1;
    }

    fresh_get :
        (w : ℕ)
        → SkipMap.get fresh.map w
          ≡ (if w == v then some (length cs.cells) else SkipMap.get cs.map w)
    fresh_get = SkipMap.get-insert cs.map v (length cs.cells)

    length-fresh : length fresh.cells ≡ length cs.cells + 1
    length-fresh =
        length-set (cs.cells ++ 0 ∷ []) (length cs.cells) 1 ∙ length-append cs.cells (0 ∷ [])

    load-fresh : (s : ℕ) → load fresh s ≡ (if s == length cs.cells then 1 else load cs s)
    load-fresh s = ground (
      arith,
      get_or-set (cs.cells ++ 0 ∷ []) (length cs.cells) s 1
          (omega (arith, length-append cs.cells (0 ∷ []))),
      get_or-push cs.cells s,
    )

    raise_new : IsCount fresh ((v, length cs.cells) ∷ live)
    unfolding holders
    raise_new = record {
      held = (
        ground (arith, fresh_get v),
        AllHeld-change cs fresh live (λ w s p q. ground (arith, fresh_get w)) inv.held,
      );
      there = λ w s f. ground (arith, fresh_get w, length-fresh, inv.there w s);
      counted = λ w s f. ground (
        arith,
        fresh_get w,
        load-fresh s,
        inv.there w s,
        inv.counted w s,
        holders-none cs live v inv.held e,
      );
      positive = λ w s f. ground (arith, fresh_get w, inv.positive w s);
      own = λ w x s f g.
          ground (arith, fresh_get w, fresh_get x, inv.there w s, inv.there x s, inv.own w x s);
    }

-- The counter at the snapshot, whether it was there or is new, and the counters after one more
-- holder.
module _ ⦃c : Crates⦄ (cs : Counters) (live : Live) (v : ℕ) (inv : IsCount cs live) where
  slot-IsCount :
      (load (slot cs v).0 (slot cs v).1 ≡ holders v live)
      × IsCount (store (slot cs v).0 (slot cs v).1 (holders v live + 1)) ((v, (slot cs v).1) ∷ live)
  unfolding slot
  slot-IsCount = elim (Option-cases (SkipMap.get cs.map v)) [
    | inl e ↦
        rw (e, slot, holders-none cs live v inv.held e)
          (
            get_or-push cs.cells (length cs.cells) ∙ get_or-beyond cs.cells,
            raise_new cs live v inv e,
          )
    | inr (r, e) ↦ rw (e, slot) (inv.counted v r e, raise_old cs live v inv r e)
  ]

not_tombstone :
    (v : ℕ) (live : Live)
    → length live < counter_tombstone
    → (holders v live == counter_tombstone) ≡ false
not_tombstone v live h = ground (arith, holders-le v live)

module _ ⦃c : Crates⦄ where
  -- The last round of the loop had this snapshot, read it twice, and found `gc_floor` not above it.
  abbrev pub Passed : List Loads → ℕ → Type 0
  Passed [] v = ⊥
  Passed (l ∷ ls) v = ((l.first ≡ v) × (accepted l ≡ true)) ⊎ Passed ls v

  abbrev pub Outcome : Live → List Loads → Option (ℕ × ℕ × Counters) → Type 0
  Outcome live ls none = any accepted ls ≡ false
  Outcome live ls (some (v, r, ds)) = IsCount ds ((v, r) ∷ live) × Passed ls v

  Outcome-cons :
      (live : Live) (l : Loads) (ls : List Loads) (o : Option (ℕ × ℕ × Counters))
      → accepted l ≡ false
      → Outcome live ls o
      → Outcome live (l ∷ ls) o
  unfolding any
  Outcome-cons live l ls none h done = ground arith
  Outcome-cons live l ls (some (v, r, ds)) h done = (done.0, inr done.1)

  pub register_counter-Outcome :
      (ls : List Loads) (cs : Counters) (live : Live)
      → IsCount cs live
      → length live < counter_tombstone
      → Outcome live ls (register_counter ls cs)
  unfolding register_counter any
  register_counter-Outcome [] cs live inv few = refl
  register_counter-Outcome (l ∷ ls) cs live inv few =
      let (loaded, raised) = slot-IsCount cs live l.first inv in
      let (back, back_eq, back_inv) =
        rollback-IsCount (store (slot cs l.first).0 (slot cs l.first).1 (holders l.first live + 1))
          live l.first (slot cs l.first).1 raised in
      elim (Bool-cases (accepted l)) [
        | inl yes_now ↦
            rw (loaded, not_tombstone l.first live few, yes_now) (raised, inl (refl, yes_now))
        | inr not_now ↦
            rw (loaded, not_tombstone l.first live few, not_now, back_eq)
              (Outcome-cons live l ls _ not_now
                (register_counter-Outcome ls back live back_inv few))
      ]
