-- ===== src/Versions/Bounds.antt =====
-- The greatest version of a chain.
use stupid_kv.Base.{
  zero, suc, some, ◌+◌, ◌-◌, ◌==◌, drop, length, get_elem?, eq-suc-zero, ℕ, ◌≤◌, ◌≡◌, refl, false,
  Option, none, [], ◌∷◌, arith, Bytes, leb, if◌then◌else◌, any,
}
use stupid_kv.Versions.{
  Version, Versions, from, push, fetch_version, cut, drain, gc_older_versions,
  find_index_lte_version,
}
use stupid_kv.Versions.Order.{IsSorted, latest}
use stupid_kv.Versions.Push.{place, push-eq-place}
use stupid_kv.Versions.Read.{hidden, fetch_version-push, fetch_version-eq}

abbrev pub AtMost : ℕ → Versions → Type 0
AtMost b [] = Unit {0}
AtMost b (x ∷ xs) = (x.version ≤ b) × AtMost b xs

pub AtMost-mono : (a b : ℕ) (vs : Versions) → a ≤ b → AtMost a vs → AtMost b vs
AtMost-mono a b [] h m = tt
AtMost-mono a b (x ∷ xs) h m = (omega arith, AtMost-mono a b xs h m.1)

place-AtMost :
    (b : ℕ) (p : Option Bytes) (vs : Versions) (v : Version)
    → v.version ≤ b
    → AtMost b vs
    → AtMost b (place p vs v)
unfolding place
place-AtMost b p [] v h m = ground arith
place-AtMost b p (x ∷ xs) v h m = ground (arith, place-AtMost b x.value xs v h m.1)

pub push-AtMost :
    (b : ℕ) (vs : Versions) (v : Version)
    → IsSorted vs
    → v.version ≤ b
    → AtMost b vs
    → AtMost b (push vs v)
push-AtMost b vs v s h m = rw (push-eq-place vs v s) (place-AtMost b none vs v h m)

not_hidden : (b q : ℕ) (vs : Versions) → AtMost b vs → hidden b q vs ≡ false
unfolding any
not_hidden b q [] m = refl
not_hidden b q (x ∷ xs) m = ground (arith, not_hidden b q xs m.1)

-- A push of a version that no version of the chain exceeds: readers at it or later see the value.
pub fetch_version-push_newest :
    (vs : Versions) (v : Version) (q : ℕ)
    → IsSorted vs
    → AtMost v.version vs
    → fetch_version (push vs v) q ≡ (if leb v.version q then v.value else fetch_version vs q)
fetch_version-push_newest vs v q s m =
    ground (arith, fetch_version-push vs v q s, not_hidden v.version q vs m)

-- The chain that a first write makes.
pub from-IsSorted : (v : Version) → IsSorted (from v)
unfolding from
from-IsSorted v = (tt, tt)

pub from-AtMost : (b : ℕ) (v : Version) → v.version ≤ b → AtMost b (from v)
unfolding from
from-AtMost b v h = (h, tt)

pub fetch_version-from :
    (v : Version) (q : ℕ) → fetch_version (from v) q ≡ (if leb v.version q then v.value else none)
fetch_version-from v q =
    rw (fetch_version-eq (from v) q (from-IsSorted v)) (unfold from latest in refl)

AtMost-drop : (b n : ℕ) (vs : Versions) → AtMost b vs → AtMost b (drop n vs)
AtMost-drop b zero vs m = m
AtMost-drop b (suc n) [] m = tt
AtMost-drop b (suc n) (x ∷ xs) m = AtMost-drop b n xs m.1

AtMost-cut : (b n : ℕ) (vs : Versions) (o : Option Version) → AtMost b vs → AtMost b (cut vs n o)
unfolding cut drain
AtMost-cut b n vs none m = m
AtMost-cut b n vs (some v) m = kept v.value
  where
    kept :
        (o : Option Bytes)
        → AtMost b (elim o as (λ _. Versions) [ none ↦ drain vs (n + 1) | some a ↦ drain vs n ])
    kept none = AtMost-drop b (n + 1) vs m
    kept (some a) = AtMost-drop b n vs m

-- The collection once its index is known.
abbrev collected : Versions → ℕ → Versions × ℕ
collected vs i =
    if i == 0
    then (vs, length vs)
    else let kept = cut vs (i - 1) (get_elem? vs (i - 1)) in (kept, length kept)

collected-AtMost : (b i : ℕ) (vs : Versions) → AtMost b vs → AtMost b (collected vs i).0
collected-AtMost b zero vs m = m
collected-AtMost b (suc i) vs m =
    rw (eq-suc-zero i) (AtMost-cut b (suc i - 1) vs (get_elem? vs (suc i - 1)) m)

-- A collection adds no version.
pub AtMost-gc : (b ts : ℕ) (vs : Versions) → AtMost b vs → AtMost b (gc_older_versions vs ts).0
unfolding gc_older_versions
AtMost-gc b ts vs m = collected-AtMost b (find_index_lte_version vs ts) vs m
