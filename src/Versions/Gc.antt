-- ===== src/Versions/Gc.antt =====
-- `gc_older_versions` drops only what no reader at or above the watermark can see.
use native.Mathlib.Numerals.{add-one}
use stupid_kv.Base.{
  ℕ, zero, suc, ◌≤◌, ◌≡◌, refl, subst, inl, inr, true, Option, none, some, [], ◌∷◌, arith, Bytes,
  leb, ◌==◌, length, get_elem?, drop, get_elem?-lt, drop-get_elem?, eq-suc-zero, sub-one,
  partition_point, Bool-cases,
}
use stupid_kv.Versions.{Version, Versions, is_some, fetch_version, cut, gc_older_versions}
use stupid_kv.Versions.Order.{Later, IsSorted, latest, Later-mono}
use stupid_kv.Versions.Search.{
  Later-get_elem?, count_lte, find_index_lte_version-eq, count_lte-le, count_lte-splits,
}
use stupid_kv.Versions.Read.{fetch_version-eq}

Later-drop : (b n : ℕ) (vs : Versions) → Later b vs → Later b (drop n vs)
Later-drop b zero vs l = l
Later-drop b (suc n) [] l = tt
Later-drop b (suc n) (x ∷ xs) l = Later-drop b n xs l.1

IsSorted-drop : (n : ℕ) (vs : Versions) → IsSorted vs → IsSorted (drop n vs)
IsSorted-drop zero vs s = s
IsSorted-drop (suc n) [] s = tt
IsSorted-drop (suc n) (x ∷ xs) s = IsSorted-drop n xs s.1

-- The chain splits at the version with index `k` when that is at most `q`.
latest-drop :
    (d : Option Bytes) (k : ℕ) (vs : Versions) (v : Version) (q : ℕ)
    → IsSorted vs
    → get_elem? vs k ≡ some v
    → v.version ≤ q
    → latest d vs q ≡ latest v.value (drop (suc k) vs) q
unfolding latest
latest-drop d zero [] v q s e h = cc
latest-drop d (suc k) [] v q s e h = cc
latest-drop d zero (x ∷ xs) v q s e h = ground arith
latest-drop d (suc k) (x ∷ xs) v q s e h =
    ground (arith, latest-drop x.value k xs v q s.1 e h, Later-get_elem? x.version xs k v s.0)

count_lte-drop : (vs : Versions) (q : ℕ) → IsSorted vs → Later q (drop (count_lte vs q) vs)
unfolding partition_point
count_lte-drop [] q s = tt
count_lte-drop (x ∷ xs) q s = elim (Bool-cases (leb x.version q)) [
  | inl h ↦ rw (h, partition_point) (count_lte-drop xs q s.1)
  | inr h ↦ rw (h, partition_point) (ground arith, Later-mono q x.version xs (ground arith) s.0)
]

-- What is known where the search finds something to collect.
visible_version :
    (vs : Versions) (ts k : ℕ)
    → IsSorted vs
    → count_lte vs ts ≡ suc k
    → (v : Version) × (get_elem? vs k ≡ some v) × (v.version ≤ ts)
visible_version vs ts k s e =
    let (v, at) = get_elem?-lt vs k (omega (arith, count_lte-le vs ts)) in
    (v, at, ground (arith, count_lte-splits vs ts k v s at))

gc_none :
    (vs : Versions) (ts : ℕ) → IsSorted vs → count_lte vs ts ≡ 0 → (gc_older_versions vs ts).0 ≡ vs
unfolding gc_older_versions
gc_none vs ts s e = rw (find_index_lte_version-eq vs ts s, e)

cut-eq :
    (vs : Versions) (k : ℕ) (v : Version)
    → get_elem? vs k ≡ some v
    → cut vs k (some v) ≡ (elim v.value [ none ↦ drop (suc k) vs | some b ↦ v ∷ drop (suc k) vs ])
unfolding cut
cut-eq vs k v at = ground (arith, drop-get_elem? vs k v at, add-one k)

gc_cut :
    (vs : Versions) (ts k : ℕ) (v : Version)
    → IsSorted vs
    → count_lte vs ts ≡ suc k
    → get_elem? vs k ≡ some v
    → (gc_older_versions vs ts).0
      ≡ (elim v.value [ none ↦ drop (suc k) vs | some b ↦ v ∷ drop (suc k) vs ])
unfolding gc_older_versions
gc_cut vs ts k v s e at =
    rw (find_index_lte_version-eq vs ts s, e, eq-suc-zero k, sub-one k, at) (cut-eq vs k v at)

-- The chain that is left: at most its first version is at or below the watermark, and that one
-- holds a value.
abbrev pub IsCompact : ℕ → Versions → Type 0
IsCompact ts [] = Unit {0}
IsCompact ts (x ∷ xs) = Later ts xs × (x.version ≤ ts → is_some x.value ≡ true)

Later-IsCompact : (ts : ℕ) (vs : Versions) → Later ts vs → IsCompact ts vs
Later-IsCompact ts [] l = tt
Later-IsCompact ts (x ∷ xs) l = (l.1, λ h. absurd (omega arith))

record Collects (vs kept : Versions) (ts : ℕ) : Type 0 where
  sorted : IsSorted kept
  compact : IsCompact ts kept
  keeps : (q : ℕ) → ts ≤ q → latest none kept q ≡ latest none vs q

cut-Collects :
    (vs : Versions) (ts k : ℕ) (v : Version)
    → IsSorted vs
    → count_lte vs ts ≡ suc k
    → get_elem? vs k ≡ some v
    → v.version ≤ ts
    → Collects vs (elim v.value [ none ↦ drop (suc k) vs | some b ↦ v ∷ drop (suc k) vs ]) ts
unfolding latest
cut-Collects vs ts k v s e at h = go v.value refl
  where
    later : Later ts (drop (suc k) vs)
    later = subst (λ n. Later ts (drop n vs)) e (count_lte-drop vs ts s)

    go :
        (o : Option Bytes)
        → v.value ≡ o
        → Collects vs (elim o [ none ↦ drop (suc k) vs | some b ↦ v ∷ drop (suc k) vs ]) ts
    go none none_e = record {
      sorted = IsSorted-drop (suc k) vs s;
      compact = Later-IsCompact ts (drop (suc k) vs) later;
      keeps = λ q le. ground (arith, latest-drop none k vs v q s at);
    }
    go (some b) some_e = record {
      sorted = (Later-mono v.version ts (drop (suc k) vs) h later, IsSorted-drop (suc k) vs s);
      compact = (later, λ _. rw some_e refl);
      keeps = λ q le. ground (arith, latest-drop none k vs v q s at);
    }

gc-Collects : (vs : Versions) (ts : ℕ) → IsSorted vs → Collects vs (gc_older_versions vs ts).0 ts
gc-Collects vs ts s = go (count_lte vs ts) refl
  where
    go : (n : ℕ) → count_lte vs ts ≡ n → Collects vs (gc_older_versions vs ts).0 ts
    go zero e = rw (gc_none vs ts s e) (record {
      sorted = s;
      compact =
          Later-IsCompact ts vs (subst (λ n. Later ts (drop n vs)) e (count_lte-drop vs ts s));
      keeps = λ q le. refl;
    })
    go (suc k) e =
        let (v, at, h) = visible_version vs ts k s e in
        rw (gc_cut vs ts k v s e at) (cut-Collects vs ts k v s e at h)

pub gc-IsSorted : (vs : Versions) (ts : ℕ) → IsSorted vs → IsSorted (gc_older_versions vs ts).0
gc-IsSorted vs ts s = (gc-Collects vs ts s).sorted

-- On a sorted chain, a collection at the watermark `ts` changes no read at `ts` or above it.
pub fetch_version-gc :
    (vs : Versions) (ts q : ℕ)
    → IsSorted vs
    → ts ≤ q
    → fetch_version (gc_older_versions vs ts).0 q ≡ fetch_version vs q
fetch_version-gc vs ts q s h =
    rw
      (
        fetch_version-eq (gc_older_versions vs ts).0 q (gc-IsSorted vs ts s),
        fetch_version-eq vs q s,
      )
      ((gc-Collects vs ts s).keeps q h)

-- A collection of a sorted chain leaves it sorted, and leaves nothing that it could drop: only
-- the first version can lie at or below the watermark, and then it holds a value.
pub gc-IsCompact :
    (vs : Versions) (ts : ℕ)
    → IsSorted vs
    → IsSorted (gc_older_versions vs ts).0 × IsCompact ts (gc_older_versions vs ts).0
gc-IsCompact vs ts s = (gc-IsSorted vs ts s, (gc-Collects vs ts s).compact)

length-gc :
    (vs : Versions) (ts : ℕ) → (gc_older_versions vs ts).1 ≡ length (gc_older_versions vs ts).0
unfolding gc_older_versions
length-gc vs ts = ground arith

-- The returned number is zero only where the chain is empty.
pub gc_count :
    (vs : Versions) (ts : ℕ)
    → ((gc_older_versions vs ts).1 == 0) ≡ true
    → (gc_older_versions vs ts).0 ≡ []
gc_count vs ts h = length_zero (gc_older_versions vs ts).0 (rw (← length-gc vs ts) (ground arith))
  where
    length_zero : (l : Versions) → length l ≡ 0 → l ≡ []
    length_zero [] e = refl
    length_zero (x ∷ l) e = absurd (omega arith)
