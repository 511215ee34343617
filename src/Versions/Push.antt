-- ===== src/Versions/Push.antt =====
-- `push` refines the plain write into a chain, and keeps the chain sorted.
use stupid_kv.Base.{
  ℕ, zero, suc, ◌≤◌, ◌<◌, ◌≡◌, refl, ap, ◌∙◌, inl, inr, Option, none, some, [], ◌∷◌, arith, Bytes,
  ltb, ◌==◌, if◌then◌else◌, length, last, get_elem?, insert_at, partition_point, sub-one,
  compare-cases, Option-cases, insert_at-length, last-get_elem?,
}
use stupid_kv.Versions.{
  Version, Versions, same, find_index_lte_version, index_or_update, fetch_index_or_update,
  apply_index, push_after, push,
}
use stupid_kv.Versions.Order.{Later, IsSorted, latest, overwrite, same_eq, same_comm, Later-mono}
use stupid_kv.Versions.Search.{count_lte, find_index_lte_version-eq}

-- The write by recursion along the chain: `p` is the value before the chain.
unfoldable pub place : Option Bytes → Versions → Version → Versions
place p [] v = if same p v.value then [] else v ∷ []
place p (x ∷ xs) v =
    if ltb x.version v.version
    then x ∷ place x.value xs v
    else if x.version == v.version
    then (if same x.value v.value then x ∷ xs else record x { value = v.value } ∷ xs)
    else if same p v.value
    then x ∷ xs
    else v ∷ x ∷ xs

-- The write at a given index, with the value `p` before the chain.
at_index : Option Bytes → Versions → Version → ℕ → Versions
unfolding apply_index index_or_update
at_index p vs v zero = if same p v.value then vs else insert_at vs 0 v
at_index p vs v (suc i) = apply_index vs v (index_or_update v (suc i) (get_elem? vs i))

count_lte-Later : (b : ℕ) (vs : Versions) → Later b vs → count_lte vs b ≡ 0
unfolding partition_point
count_lte-Later b [] l = refl
count_lte-Later b (x ∷ xs) l = ground arith

at_index-suc :
    (p : Option Bytes) (x : Version) (xs : Versions) (v : Version) (i : ℕ)
    → x.version < v.version
    → at_index p (x ∷ xs) v (suc i) ≡ x ∷ at_index x.value xs v i
unfolding at_index
at_index-suc p x xs v zero h = ground arith
at_index-suc p x xs v (suc i) h = ground arith

count_lte-cons :
    (x : Version) (xs : Versions) (q : ℕ)
    → x.version ≤ q
    → count_lte (x ∷ xs) q ≡ suc (count_lte xs q)
unfolding partition_point
count_lte-cons x xs q h = ground arith

module _ (p : Option Bytes) (x : Version) (xs : Versions) (v : Version) where
  place_lt : x.version < v.version → place p (x ∷ xs) v ≡ x ∷ place x.value xs v
  unfolding place
  place_lt h = ground arith

  place_eq : x.version ≡ v.version → at_index p (x ∷ xs) v 1 ≡ place p (x ∷ xs) v
  unfolding at_index place
  place_eq h = ground arith

  place_gt : v.version < x.version → at_index p (x ∷ xs) v 0 ≡ place p (x ∷ xs) v
  unfolding at_index place
  place_gt h = ground arith

at_index-eq-place :
    (p : Option Bytes) (vs : Versions) (v : Version)
    → IsSorted vs
    → at_index p vs v (count_lte vs v.version) ≡ place p vs v
at_index-eq-place p [] v s = unfold at_index place partition_point in refl
at_index-eq-place p (x ∷ xs) v s = elim (compare-cases x.version v.version) [
  | inl h ↦
      rw
        (
          count_lte-cons x xs v.version (omega arith),
          at_index-suc p x xs v _ h,
          place_lt p x xs v h,
        )
        (ap (◌∷◌ x) (at_index-eq-place x.value xs v s.1))
  | inr (inl e) ↦
      rw
        (
          count_lte-cons x xs v.version (omega arith),
          count_lte-Later v.version xs (Later-mono v.version x.version xs (omega arith) s.0),
        )
        (place_eq p x xs v e)
  | inr (inr g) ↦
      rw
        (count_lte-Later v.version (x ∷ xs)
          (g, Later-mono v.version x.version xs (omega arith) s.0))
        (place_gt p x xs v g)
]

-- The general path of `push`, from the index that the search returns.
general :
    (vs : Versions) (v : Version)
    → apply_index vs v (fetch_index_or_update vs v)
      ≡ at_index none vs v (find_index_lte_version vs v.version)
unfolding apply_index fetch_index_or_update at_index
general vs v = go (find_index_lte_version vs v.version) refl
  where
    go :
        (i : ℕ)
        → find_index_lte_version vs v.version ≡ i
        → apply_index vs v (fetch_index_or_update vs v) ≡ at_index none vs v i
    go zero e = rw e (ground arith)
    go (suc i) e = rw e (ground arith)

find_index_at_last :
    (x : Version) (xs : Versions) (q : ℕ) (l : Version)
    → last (x ∷ xs) ≡ some l
    → l.version ≤ q
    → find_index_lte_version (x ∷ xs) q ≡ suc (length xs)
unfolding find_index_lte_version
find_index_at_last x xs q l e h = ground arith

last-ne-none : (x : Version) (xs : Versions) → last (x ∷ xs) ≡ none → ⊥
last-ne-none x [] e = cc
last-ne-none x (y ∷ xs) e = last-ne-none y xs e

module _ (x : Version) (xs : Versions) (v l : Version) where
  push_after_lower :
      v.version < l.version
      → push_after (x ∷ xs) v l ≡ apply_index (x ∷ xs) v (fetch_index_or_update (x ∷ xs) v)
  unfolding push_after
  push_after_lower h = ground arith

  push_after_equal :
      last (x ∷ xs) ≡ some l
      → v.version ≡ l.version
      → push_after (x ∷ xs) v l ≡ at_index none (x ∷ xs) v (suc (length xs))
  unfolding push_after at_index
  push_after_equal e h =
      ground (arith, same_comm v.value l.value, last-get_elem? x xs, sub-one (length xs))

  push_after_higher :
      last (x ∷ xs) ≡ some l
      → l.version < v.version
      → push_after (x ∷ xs) v l ≡ at_index none (x ∷ xs) v (suc (length xs))
  unfolding push_after at_index
  push_after_higher e h =
      ground (arith, same_comm v.value l.value, last-get_elem? x xs, insert_at-length xs v)

-- The fast paths of `push` do what the general path does.
push_after-eq :
    (x : Version) (xs : Versions) (v l : Version)
    → last (x ∷ xs) ≡ some l
    → push_after (x ∷ xs) v l ≡ at_index none (x ∷ xs) v (find_index_lte_version (x ∷ xs) v.version)
push_after-eq x xs v l e = elim (compare-cases v.version l.version) [
  | inl h ↦ push_after_lower x xs v l h ∙ general (x ∷ xs) v
  | inr (inl h) ↦
      rw (find_index_at_last x xs v.version l e (omega arith)) (push_after_equal x xs v l e h)
  | inr (inr h) ↦
      rw (find_index_at_last x xs v.version l e (omega arith)) (push_after_higher x xs v l e h)
]

pub push-eq-place : (vs : Versions) (v : Version) → IsSorted vs → push vs v ≡ place none vs v
unfolding push
push-eq-place [] v s = unfold place in ground arith
push-eq-place (x ∷ xs) v s = elim (Option-cases (last (x ∷ xs))) [
  | inl e ↦ absurd (last-ne-none x xs e)
  | inr (l, e) ↦
      rw (e, push)
        (push_after-eq x xs v l e
          ∙ ap (at_index none (x ∷ xs) v) (find_index_lte_version-eq (x ∷ xs) v.version s)
          ∙ at_index-eq-place none (x ∷ xs) v s)
]

place-Later :
    (b : ℕ) (p : Option Bytes) (vs : Versions) (v : Version)
    → b < v.version
    → Later b vs
    → Later b (place p vs v)
unfolding place
place-Later b p [] v h l = ground arith
place-Later b p (x ∷ xs) v h l = ground (arith, place-Later b x.value xs v h l.1)

place-IsSorted :
    (p : Option Bytes) (vs : Versions) (v : Version) → IsSorted vs → IsSorted (place p vs v)
unfolding place
place-IsSorted p [] v s = ground arith
place-IsSorted p (x ∷ xs) v s = ground (
  arith,
  place-IsSorted x.value xs v s.1,
  place-Later x.version x.value xs v,
  Later-mono v.version x.version xs,
)

latest-place :
    (p : Option Bytes) (vs : Versions) (v : Version) (q : ℕ)
    → latest p (place p vs v) q ≡ latest p (overwrite vs v) q
unfolding latest place overwrite
latest-place p [] v q = ground (arith, same_eq p v.value)
latest-place p (x ∷ xs) v q =
    ground (arith, latest-place x.value xs v q, same_eq p v.value, same_eq x.value v.value)

-- `push` keeps a sorted chain sorted, on every path.
pub push-IsSorted : (vs : Versions) (v : Version) → IsSorted vs → IsSorted (push vs v)
push-IsSorted vs v s = rw (push-eq-place vs v s) (place-IsSorted none vs v s)

pub latest-push :
    (vs : Versions) (v : Version) (q : ℕ)
    → IsSorted vs
    → latest none (push vs v) q ≡ latest none (overwrite vs v) q
latest-push vs v q s = rw (push-eq-place vs v s) (latest-place none vs v q)
