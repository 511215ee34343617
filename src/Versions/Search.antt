-- ===== src/Versions/Search.antt =====
-- The two searches of a chain agree with its partition point, whichever path they take.
use stupid_kv.Base.{
  ℕ, zero, suc, ◌≤◌, ◌<◌, ◌≡◌, refl, Bool, true, false, none, some, [], ◌∷◌, arith, ltb, leb,
  if◌then◌else◌, length, get_elem?, rposition, partition_point,
}
use stupid_kv.Versions.{
  Version, Versions, after, last_passes, find_index_lt_version, find_index_lte_version,
}
use stupid_kv.Versions.Order.{Later, IsSorted}

-- A test on version numbers that holds of an initial part of the chain only.
abbrev IsDownward : (ℕ → Bool) → Type 0
IsDownward p = (a b : ℕ) → a ≤ b → p b ≡ true → p a ≡ true

module _ (p : ℕ → Bool) (down : IsDownward p) where
  abbrev by : Version → Bool
  by v = p v.version

  point-Later : (b : ℕ) (vs : Versions) → Later b vs → p b ≡ false → partition_point by vs ≡ 0
  unfolding partition_point
  point-Later b [] l f = refl
  point-Later b (x ∷ xs) l f = ground (arith, down b x.version)

  rposition-Later : (b : ℕ) (vs : Versions) → Later b vs → p b ≡ false → rposition by vs ≡ none
  unfolding rposition
  rposition-Later b [] l f = refl
  rposition-Later b (x ∷ xs) l f = ground (arith, down b x.version, rposition-Later b xs l.1 f)

  after-rposition : (vs : Versions) → IsSorted vs → after (rposition by vs) ≡ partition_point by vs
  unfolding rposition partition_point
  after-rposition [] s = refl
  after-rposition (x ∷ xs) s = ground (
    arith,
    after-rposition xs s.1,
    rposition-Later x.version xs s.0,
    point-Later x.version xs s.0,
  )

  -- If the last version passes, all do.
  point_all :
      (x : Version) (xs : Versions)
      → IsSorted (x ∷ xs)
      → last_passes p (x ∷ xs) ≡ true
      → partition_point by (x ∷ xs) ≡ suc (length xs)
  unfolding partition_point
  point_all x [] s h = ground arith
  point_all x (y ∷ ys) s h = ground (arith, point_all y ys s.1 h, down x.version y.version)

  pub search-eq-point :
      (vs : Versions)
      → IsSorted vs
      → (if last_passes p vs
          then length vs
          else if leb (length vs) 4
          then after (rposition by vs)
          else partition_point by vs)
        ≡ partition_point by vs
  search-eq-point [] s = ground (arith, after-rposition [] s)
  search-eq-point (x ∷ xs) s = ground (arith, after-rposition (x ∷ xs) s, point_all x xs s)

pub Later-get_elem? :
    (b : ℕ) (vs : Versions) (i : ℕ) (v : Version)
    → Later b vs
    → get_elem? vs i ≡ some v
    → b < v.version
Later-get_elem? b [] i v l e = cc
Later-get_elem? b (x ∷ xs) zero v l e = ground arith
Later-get_elem? b (x ∷ xs) (suc i) v l e = Later-get_elem? b xs i v l.1 e

lte_down : (q : ℕ) → IsDownward (λ x. leb x q)
lte_down q a b h e = ground arith

lt_down : (q : ℕ) → IsDownward (λ x. ltb x q)
lt_down q a b h e = ground arith

-- The number of versions that are at most `q`; and of those below `q`.
abbrev pub count_lte : Versions → ℕ → ℕ
count_lte vs q = partition_point (λ v. leb v.version q) vs

abbrev pub count_lt : Versions → ℕ → ℕ
count_lt vs q = partition_point (λ v. ltb v.version q) vs

pub find_index_lte_version-eq :
    (vs : Versions) (q : ℕ) → IsSorted vs → find_index_lte_version vs q ≡ count_lte vs q
unfolding find_index_lte_version
find_index_lte_version-eq vs q s = search-eq-point (λ x. leb x q) (lte_down q) vs s

pub find_index_lt_version-eq :
    (vs : Versions) (q : ℕ) → IsSorted vs → find_index_lt_version vs q ≡ count_lt vs q
unfolding find_index_lt_version
find_index_lt_version-eq vs q s = search-eq-point (λ x. ltb x q) (lt_down q) vs s

pub count_lte-splits :
    (vs : Versions) (q i : ℕ) (v : Version)
    → IsSorted vs
    → get_elem? vs i ≡ some v
    → ltb i (count_lte vs q) ≡ leb v.version q
unfolding partition_point
count_lte-splits [] q i v s e = cc
count_lte-splits (x ∷ xs) q zero v s e = ground arith
count_lte-splits (x ∷ xs) q (suc i) v s e =
    ground (arith, count_lte-splits xs q i v s.1 e, Later-get_elem? x.version xs i v s.0 e)

count_lt-splits :
    (vs : Versions) (q i : ℕ) (v : Version)
    → IsSorted vs
    → get_elem? vs i ≡ some v
    → ltb i (count_lt vs q) ≡ ltb v.version q
unfolding partition_point
count_lt-splits [] q i v s e = cc
count_lt-splits (x ∷ xs) q zero v s e = ground arith
count_lt-splits (x ∷ xs) q (suc i) v s e =
    ground (arith, count_lt-splits xs q i v s.1 e, Later-get_elem? x.version xs i v s.0 e)

pub count_lte-le : (vs : Versions) (q : ℕ) → count_lte vs q ≤ length vs
unfolding partition_point
count_lte-le [] q = omega arith
count_lte-le (x ∷ xs) q = ground (arith, count_lte-le xs q)

-- On a sorted chain the positions before the index that `find_index_lte_version` returns hold
-- exactly the versions that are at most `q`, those before the index of `find_index_lt_version`
-- exactly the versions below `q`; and the first index does not pass the end of the chain.
pub find_index_splits :
    (vs : Versions) (q i : ℕ) (v : Version)
    → IsSorted vs
    → get_elem? vs i ≡ some v
    → (ltb i (find_index_lte_version vs q) ≡ leb v.version q)
      × (ltb i (find_index_lt_version vs q) ≡ ltb v.version q)
      × (find_index_lte_version vs q ≤ length vs)
find_index_splits vs q i v s e =
    rw (find_index_lte_version-eq vs q s, find_index_lt_version-eq vs q s)
      (count_lte-splits vs q i v s e, count_lt-splits vs q i v s e, count_lte-le vs q)
