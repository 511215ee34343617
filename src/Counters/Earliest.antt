-- ===== src/Counters/Earliest.antt =====
-- `earliest_active` returns the least snapshot of an active transaction.
use stupid_kv.Base.{
  ℕ, ◌≤◌, ◌<◌, ◌≡◌, ◌≢◌, refl, subst, ◌∙◌, sym, none, some, [], ◌∷◌, nat_ord, arith, length, Crates,
}
use stupid_kv.Base.BTreeMap.{BTreeMap, IsAscending, Above-get}
use stupid_kv.Base.BTreeMap
use stupid_kv.Base.SkipMap
use stupid_kv.Counters.{Counters, counter_tombstone, first_active, earliest_active}
use stupid_kv.Counters.Holders.{Live, holders, AllHeld, IsCount, holders-le}

-- Every active snapshot is at least the bound.
abbrev pub AtLeast : ℕ → Live → Type 0
AtLeast b [] = Unit {0}
AtLeast b ((v, r) ∷ live) = (b ≤ v) × AtLeast b live

-- The least active snapshot: a bound of all, and one of them; the fallback where none is active.
abbrev pub IsEarliest : Live → ℕ → ℕ → Type 0
IsEarliest live fallback b =
    AtLeast b live × (live ≢ [] → 0 < holders b live) × (live ≡ [] → b ≡ fallback)

module _ ⦃c : Crates⦄ (cs : Counters) (live : Live) (inv : IsCount cs live)
    (few : length live < counter_tombstone) where
  no_entries : (l : Live) → AllHeld cs l → ((w : ℕ) → SkipMap.get cs.map w ≡ none) → l ≡ []
  no_entries [] h e = refl
  no_entries ((v, r) ∷ l) h e = cc (h.0, e v)

  head_least :
      (l : Live) (v r : ℕ) (m : BTreeMap ℕ ℕ)
      → AllHeld cs l
      → ((w : ℕ) → BTreeMap.get w ((v, r) ∷ m) ≡ SkipMap.get cs.map w)
      → IsAscending ((v, r) ∷ m)
      → AtLeast v l
  unfolding BTreeMap.get
  head_least [] v r m h e s = tt
  head_least ((w, x) ∷ l) v r m h e s =
      (ground (arith, h.0, e w, Above-get v w m x s.0), head_least l v r m h.1 e s)

  head_active :
      (v r : ℕ) (m : BTreeMap ℕ ℕ) (fallback : ℕ)
      → SkipMap.get cs.map v ≡ some r
      → first_active cs.cells ((v, r) ∷ m) fallback ≡ v
  unfolding first_active
  head_active v r m fallback e =
      ground (arith, inv.counted v r e, inv.positive v r e, holders-le v live)

  get-head : (v r : ℕ) (m : BTreeMap ℕ ℕ) → BTreeMap.get v ((v, r) ∷ m) ≡ some r
  unfolding BTreeMap.get
  get-head v r m = ground arith

  held_by_none : (v r : ℕ) → SkipMap.get cs.map v ≡ some r → live ≡ [] → ⊥
  unfolding holders
  held_by_none v r e empty =
      let positive : 0 < holders v [] = subst (λ l. 0 < holders v l) empty (inv.positive v r e) in
      omega arith

  from_entries :
      (fallback : ℕ) (m : BTreeMap ℕ ℕ)
      → ((w : ℕ) → BTreeMap.get w m ≡ SkipMap.get cs.map w)
      → IsAscending m
      → IsEarliest live fallback (first_active cs.cells m fallback)
  from_entries fallback [] e s =
      let empty = no_entries live inv.held (λ w. unfold BTreeMap.get in sym (e w)) in
      unfold first_active in (rw empty tt, λ some_live. absurd (some_live empty), λ _. refl)
  from_entries fallback ((v, r) ∷ m) e s =
      let found = sym (e v) ∙ get-head v r m in
      rw (head_active v r m fallback found) (
        head_least live v r m inv.held e s,
        λ _. inv.positive v r found,
        λ empty. absurd (held_by_none v r found empty),
      )

  pub earliest_active-IsEarliest :
      (fallback : ℕ) → IsEarliest live fallback (earliest_active cs fallback)
  unfolding earliest_active
  earliest_active-IsEarliest fallback =
      from_entries fallback (SkipMap.iter cs.map) (SkipMap.get-iter cs.map)
        (SkipMap.iter-IsAscending cs.map)
