-- ===== src/Counters/Holders.antt =====
-- The invariant of the counters: each counter in the map counts the transactions that hold it.
use stupid_kv.Base.{
  ℕ, zero, suc, ◌+◌, ◌≤◌, ◌<◌, ◌≡◌, refl, none, some, List, [], ◌∷◌, ◌++◌, nat_ord, arith, ◌==◌,
  if◌then◌else◌, length, get_or, set, Crates,
}
use stupid_kv.Base.SkipMap
use stupid_kv.Counters.{Counters, load, no_counters}

-- The snapshots of the active transactions, each with the counter that it holds.
abbrev pub Live : Type 0
Live = List (ℕ × ℕ)

-- The number of transactions with the snapshot `v`.
unfoldable pub holders : ℕ → Live → ℕ
holders v [] = 0
holders v ((w, r) ∷ live) = (if w == v then 1 else 0) + holders v live

module _ ⦃c : Crates⦄ where
  -- Every active transaction holds the counter that the map has for its snapshot.
  abbrev pub AllHeld : Counters → Live → Type 0
  AllHeld cs [] = Unit {0}
  AllHeld cs ((v, r) ∷ live) = (SkipMap.get cs.map v ≡ some r) × AllHeld cs live

  pub record IsCount (cs : Counters) (live : Live) : Type 0 where
    pub held : AllHeld cs live
    pub there : (v r : ℕ) → SkipMap.get cs.map v ≡ some r → r < length cs.cells
    pub counted : (v r : ℕ) → SkipMap.get cs.map v ≡ some r → load cs r ≡ holders v live
    pub positive : (v r : ℕ) → SkipMap.get cs.map v ≡ some r → 0 < holders v live
    pub own : (v w r : ℕ) → SkipMap.get cs.map v ≡ some r → SkipMap.get cs.map w ≡ some r → v ≡ w

  pub no_counters-IsCount : IsCount no_counters []
  unfolding no_counters
  no_counters-IsCount = record {
    held = tt;
    there = λ v r e. cc (c.get-empty ℕ ℕ nat_ord v);
    counted = λ v r e. cc (c.get-empty ℕ ℕ nat_ord v);
    positive = λ v r e. cc (c.get-empty ℕ ℕ nat_ord v);
    own = λ v w r e f. cc (c.get-empty ℕ ℕ nat_ord v);
  }

  -- A snapshot that the map does not have is nobody's.
  pub holders-none :
      (cs : Counters) (live : Live) (v : ℕ)
      → AllHeld cs live
      → SkipMap.get cs.map v ≡ none
      → holders v live ≡ 0
  unfolding holders
  holders-none cs [] v h e = refl
  holders-none cs ((w, r) ∷ live) v h e = ground (arith, holders-none cs live v h.1 e)

  pub AllHeld-change :
      (cs ds : Counters) (live : Live)
      → ((v r : ℕ)
          → 0 < holders v live
          → SkipMap.get cs.map v ≡ some r
          → SkipMap.get ds.map v ≡ some r)
      → AllHeld cs live
      → AllHeld ds live
  unfolding holders
  AllHeld-change cs ds [] f h = tt
  AllHeld-change cs ds ((w, r) ∷ live) f h =
      (f w r (ground arith) h.0, AllHeld-change cs ds live (λ v s p. f v s (omega arith)) h.1)

pub holders-le : (v : ℕ) (live : Live) → holders v live ≤ length live
unfolding holders
holders-le v [] = omega arith
holders-le v ((w, r) ∷ live) = ground (arith, holders-le v live)

pub get_or-set :
    (xs : List ℕ) (i j v : ℕ)
    → i < length xs
    → get_or (set xs i v) j 0 ≡ (if j == i then v else get_or xs j 0)
get_or-set [] i j v h = elim h [ ]
get_or-set (x ∷ xs) zero zero v h = refl
get_or-set (x ∷ xs) zero (suc j) v h = ground arith
get_or-set (x ∷ xs) (suc i) zero v h = ground arith
get_or-set (x ∷ xs) (suc i) (suc j) v h = ground (arith, get_or-set xs i j v (omega arith))

pub get_or-push : (xs : List ℕ) (i : ℕ) → get_or (xs ++ 0 ∷ []) i 0 ≡ get_or xs i 0
get_or-push [] zero = refl
get_or-push [] (suc i) = refl
get_or-push (x ∷ xs) zero = refl
get_or-push (x ∷ xs) (suc i) = get_or-push xs i
