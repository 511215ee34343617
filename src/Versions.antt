-- ===== src/Versions.antt =====
-- src/versions/version.rs and src/versions/versions.rs: the version chain of one key.
pub mod Order
pub mod Search
pub mod Push
pub mod Read
pub mod Gc
pub mod Bounds
use stupid_kv.Base.{
  ℕ, zero, suc, ◌+◌, ◌-◌, ◌≡◌, Bool, true, false, Option, none, some, List, [], ◌∷◌, ◌++◌, map,
  Bytes, bytes_ord, eqb, ltb, leb, ◌==◌, if◌then◌else◌, length, get_elem?, set, drop, insert_at,
  last, rposition, partition_point,
}
use mathlib.Core.Option

pub record Version : Type 0 where
  pub version : ℕ
  pub value : Option Bytes

-- The struct's only field, `inner: SmallVec<[Version; 4]>`.
abbrev pub Versions : Type 0
Versions = List Version

abbrev pub is_some : {A : Type 0} → Option A → Bool
is_some none = false
is_some (some a) = true

-- `==` of `Option<Bytes>`.
abbrev pub same : Option Bytes → Option Bytes → Bool
same none none = true
same none (some b) = false
same (some a) none = false
same (some a) (some b) = eqb a b

pub data IndexOrUpdate : Type 0 where
  ignore : IndexOrUpdate
  index : ℕ → IndexOrUpdate
  -- the borrowed version, by its position
  update : ℕ → Version → IndexOrUpdate

unfoldable pub from : Version → Versions
from v = v ∷ []

unfoldable pub new : Versions
new = []

-- `map_or(0, |i| i + 1)`.
abbrev after : Option ℕ → ℕ
after none = 0
after (some i) = i + 1

-- The early exit of the two searches below: the test on the last version.
abbrev last_passes : (ℕ → Bool) → Versions → Bool
last_passes p vs = elim (last vs) [ none ↦ false | some l ↦ p l.version ]

unfoldable pub find_index_lt_version : Versions → ℕ → ℕ
find_index_lt_version vs version =
    if last_passes (λ x. ltb x version) vs
    then length vs
    else if leb (length vs) 4
    then after (rposition (λ v. ltb v.version version) vs)
    else partition_point (λ v. ltb v.version version) vs

unfoldable pub find_index_lte_version : Versions → ℕ → ℕ
find_index_lte_version vs version =
    if last_passes (λ x. leb x version) vs
    then length vs
    else if leb (length vs) 4
    then after (rposition (λ v. leb v.version version) vs)
    else partition_point (λ v. leb v.version version) vs

-- The decision about the version at `idx - 1`, when there is one.
unfoldable pub index_or_update : Version → ℕ → Option Version → IndexOrUpdate
index_or_update value idx none = index idx
index_or_update value idx (some existing) =
    if existing.version == value.version
    then (if same existing.value value.value then ignore else update (idx - 1) existing)
    else if same existing.value value.value
    then ignore
    else index idx

unfoldable pub fetch_index_or_update : Versions → Version → IndexOrUpdate
unfolding index_or_update
fetch_index_or_update vs value =
    let idx = find_index_lte_version vs value.version in
    if idx == 0
    then (if is_some value.value then index idx else ignore)
    else index_or_update value idx (get_elem? vs (idx - 1))

unfoldable pub apply_index : Versions → Version → IndexOrUpdate → Versions
apply_index vs value ignore = vs
apply_index vs value (index idx) = insert_at vs idx value
apply_index vs value (update i existing) = set vs i (record existing { value = value.value })

-- The match on the last version; a lower version takes the general path.
unfoldable pub push_after : Versions → Version → Version → Versions
unfolding apply_index
push_after vs value l =
    if ltb l.version value.version
    then (if same value.value l.value then vs else vs ++ value ∷ [])
    else if value.version == l.version
    then (if same value.value l.value
        then vs
        else set vs (length vs - 1) (record l { value = value.value }))
    else apply_index vs value (fetch_index_or_update vs value)

unfoldable pub push : Versions → Version → Versions
unfolding push_after
push vs value = elim (last vs) [
  | none ↦ if is_some value.value then vs ++ value ∷ [] else vs
  | some l ↦ push_after vs value l
]

-- `drain(..n)`: the removal of a prefix; the capacity is not part of the model.
unfoldable pub drain : Versions → ℕ → Versions
drain vs n = drop n vs

unfoldable pub fetch_version : Versions → ℕ → Option Bytes
fetch_version vs version =
    let idx = find_index_lte_version vs version in
    if ltb 0 idx then Option.bind (get_elem? vs (idx - 1)) (λ v. v.value) else none

unfoldable pub exists_version : Versions → ℕ → Bool
exists_version vs version =
    let idx = find_index_lte_version vs version in
    if ltb 0 idx
    then elim (get_elem? vs (idx - 1)) [ none ↦ false | some v ↦ is_some v.value ]
    else false

unfoldable pub all_versions : Versions → List (ℕ × Option Bytes)
all_versions vs = map (λ v. (v.version, v.value)) vs

-- The cut of a chain whose version at `visible` is known. An index out of range is a panic in the
-- source, which does not occur: the index is at most the length; here it would keep the chain.
unfoldable pub cut : Versions → ℕ → Option Version → Versions
unfolding drain
cut vs visible none = vs
cut vs visible (some v) = elim v.value [ none ↦ drain vs (visible + 1) | some b ↦ drain vs visible ]

-- The chain after the collection, and the number of versions that are left.
unfoldable pub gc_older_versions : Versions → ℕ → Versions × ℕ
unfolding cut
gc_older_versions vs version =
    let lte = find_index_lte_version vs version in
    if lte == 0
    then (vs, length vs)
    else let kept = cut vs (lte - 1) (get_elem? vs (lte - 1)) in (kept, length kept)
