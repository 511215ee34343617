-- ===== src/Versions/Read.antt =====
-- What `fetch_version` and `exists_version` return, and what a reader sees after a `push`.
use mathlib.Core.Option
use stupid_kv.Base.{
  ℕ, zero, suc, ◌≡◌, refl, ap, ◌∙◌, sym, Bool, true, false, Option, none, some, [], ◌∷◌, arith,
  Bytes, ltb, leb, ◌&&◌, not, if◌then◌else◌, get_elem?, partition_point, ltb-zero-suc, sub-one, any,
}
use stupid_kv.Versions.{
  Version, Versions, is_some, fetch_version, exists_version, find_index_lte_version, push,
}
use stupid_kv.Versions.Order.{Later, IsSorted, latest, overwrite, Later-mono}
use stupid_kv.Versions.Search.{count_lte, find_index_lte_version-eq}
use stupid_kv.Versions.Push.{latest-push, push-IsSorted}

value_before : Option Bytes → Versions → ℕ → Option Bytes
value_before d vs zero = d
value_before d vs (suc i) = Option.bind (get_elem? vs i) (λ v. v.value)

value_before-zero : (d : Option Bytes) (vs : Versions) → value_before d vs 0 ≡ d
unfolding value_before
value_before-zero d vs = refl

value_before-cons :
    (d : Option Bytes) (x : Version) (xs : Versions) (i : ℕ)
    → value_before d (x ∷ xs) (suc i) ≡ value_before x.value xs i
unfolding value_before Option.bind
value_before-cons d x xs zero = refl
value_before-cons d x xs (suc i) = refl

value_before-latest :
    (d : Option Bytes) (vs : Versions) (q : ℕ) → value_before d vs (count_lte vs q) ≡ latest d vs q
unfolding latest partition_point
value_before-latest d [] q = unfold value_before in refl
value_before-latest d (x ∷ xs) q = ground (
  arith,
  value_before-cons d x xs (count_lte xs q),
  value_before-latest x.value xs q,
  value_before-zero d (x ∷ xs),
)

value_seen :
    (o : Option Version)
    → (elim o [ none ↦ false | some v ↦ is_some v.value ]) ≡ is_some (Option.bind o (λ v. v.value))
unfolding Option.bind
value_seen none = refl
value_seen (some v) = refl

module _ (vs : Versions) (q : ℕ) where
  fetch_at : (i : ℕ) → find_index_lte_version vs q ≡ i → fetch_version vs q ≡ value_before none vs i
  unfolding fetch_version value_before Option.bind
  fetch_at zero e = rw e refl
  fetch_at (suc i) e = rw e (ground arith)

  exists_at :
      (i : ℕ)
      → find_index_lte_version vs q ≡ i
      → exists_version vs q ≡ is_some (value_before none vs i)
  unfolding exists_version value_before Option.bind
  exists_at zero e = rw e refl
  exists_at (suc i) e = rw (e, ltb-zero-suc i, sub-one i) (value_seen (get_elem? vs i))

  pub fetch_version-eq : IsSorted vs → fetch_version vs q ≡ latest none vs q
  fetch_version-eq s = fetch_at _ (find_index_lte_version-eq vs q s) ∙ value_before-latest none vs q

  -- On every chain, sorted or not, `exists_version` holds exactly where `fetch_version` returns
  -- a value.
  pub exists_version-fetch_version : exists_version vs q ≡ is_some (fetch_version vs q)
  exists_version-fetch_version = exists_at _ refl ∙ ap is_some (sym (fetch_at _ refl))

-- Some version of the chain lies above `a` and is at most `q`.
abbrev pub hidden : ℕ → ℕ → Versions → Bool
hidden a q vs = any (λ w. ltb a w.version && leb w.version q) vs

hidden-Later : (a q : ℕ) (vs : Versions) → Later q vs → hidden a q vs ≡ false
unfolding any
hidden-Later a q [] l = refl
hidden-Later a q (x ∷ xs) l = ground (arith, hidden-Later a q xs l.1)

latest-hidden :
    (a q : ℕ) (d e : Option Bytes) (vs : Versions)
    → hidden a q vs ≡ true
    → IsSorted vs
    → latest d vs q ≡ latest e vs q
unfolding any latest
latest-hidden a q d e [] h s = cc
latest-hidden a q d e (x ∷ xs) h s = ground (arith, hidden-Later a q xs, Later-mono q x.version xs)

latest-seen :
    (a q : ℕ) (d : Option Bytes) (vs : Versions)
    → hidden a q vs ≡ false
    → Later a vs
    → latest d vs q ≡ d
unfolding any latest
latest-seen a q d [] h l = refl
latest-seen a q d (x ∷ xs) h l = ground arith

latest-overwrite :
    (d : Option Bytes) (vs : Versions) (v : Version) (q : ℕ)
    → IsSorted vs
    → latest d (overwrite vs v) q
      ≡ (if leb v.version q && not (hidden v.version q vs) then v.value else latest d vs q)
unfolding latest overwrite any
latest-overwrite d [] v q s = ground arith
latest-overwrite d (x ∷ xs) v q s = ground (
  arith,
  latest-overwrite x.value xs v q s.1,
  latest-hidden v.version q v.value x.value xs,
  latest-seen v.version q v.value xs,
  hidden-Later v.version q xs,
  Later-mono q x.version xs,
)

-- What a snapshot at `q` reads of a sorted chain after a `push`: the pushed value if the pushed
-- version is at most `q` and no version of the chain lies above it and at most `q`, and what it
-- read before in every other case. The values that `push` does not store do not show.
pub fetch_version-push :
    (vs : Versions) (v : Version) (q : ℕ)
    → IsSorted vs
    → fetch_version (push vs v) q
      ≡ (if leb v.version q && not (hidden v.version q vs) then v.value else fetch_version vs q)
fetch_version-push vs v q s =
    rw
      (
        fetch_version-eq (push vs v) q (push-IsSorted vs v s),
        fetch_version-eq vs q s,
        latest-push vs v q s,
      )
      (latest-overwrite none vs v q s)

pub fetch_version-nil : (q : ℕ) → fetch_version [] q ≡ none
fetch_version-nil q = fetch_version-eq [] q tt ∙ (unfold latest in refl)
