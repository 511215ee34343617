-- ===== src/Persistence/Chains.antt =====
-- The chains that `load` makes of the entries of a snapshot, which pushes their versions again.
use stupid_kv.Base.{
  ℕ, ◌≡◌, refl, sym, ap, ◌∙◌, true, Option, none, some, [], ◌∷◌, Bytes, bytes_ord, nat_ord, arith,
  eqb, eqb_iff,
}
use stupid_kv.Base.BTreeMap.{BTreeMap, IsAscending, Above, get-Above}
use stupid_kv.Base.BTreeMap
use stupid_kv.Versions.{all_versions, Versions, Version, push, fetch_version}
use stupid_kv.Versions.Order.{IsSorted, Later, Later-mono, latest, latest-Later}
use stupid_kv.Versions.Push.{push-IsSorted}
use stupid_kv.Versions.Read.{fetch_version-eq, fetch_version-nil}
use stupid_kv.Versions.Bounds.{AtMost, AtMost-mono, push-AtMost, fetch_version-push_newest}
use stupid_kv.Db.Chains.{chain_read, ChainIsSorted, ChainAtMost}
use stupid_kv.Persistence.Files.{push_all}

-- A chain that is pushed again, version by version, in its order.
abbrev AfterAll : Versions → Versions → Type 0
AfterAll acc [] = Unit {0}
AfterAll acc (x ∷ xs) = AtMost x.version acc

push-AfterAll :
    (acc : Versions) (x : Version) (xs : Versions)
    → IsSorted acc
    → AtMost x.version acc
    → Later x.version xs
    → AfterAll (push acc x) xs
push-AfterAll acc x [] s m l = tt
push-AfterAll acc x (y ∷ ys) s m l =
    push-AtMost y.version acc x s (omega arith)
      (AtMost-mono x.version y.version acc (omega arith) m)

push_all-IsSorted : (vs acc : Versions) → IsSorted acc → IsSorted (push_all acc (all_versions vs))
unfolding push_all all_versions
push_all-IsSorted [] acc s = s
push_all-IsSorted (x ∷ xs) acc s = push_all-IsSorted xs (push acc x) (push-IsSorted acc x s)

push_all-AtMost :
    (b : ℕ) (vs acc : Versions)
    → IsSorted acc
    → AtMost b acc
    → AtMost b vs
    → AtMost b (push_all acc (all_versions vs))
unfolding push_all all_versions
push_all-AtMost b [] acc s m n = m
push_all-AtMost b (x ∷ xs) acc s m n =
    push_all-AtMost b xs (push acc x) (push-IsSorted acc x s) (push-AtMost b acc x s n.0 m) n.1

fetch_version-push_all :
    (vs acc : Versions) (q : ℕ)
    → IsSorted vs
    → IsSorted acc
    → AfterAll acc vs
    → fetch_version (push_all acc (all_versions vs)) q ≡ latest (fetch_version acc q) vs q
unfolding push_all all_versions latest
fetch_version-push_all [] acc q s t m = refl
fetch_version-push_all (x ∷ xs) acc q s t m =
    fetch_version-push_all xs (push acc x) q s.1 (push-IsSorted acc x t)
      (push-AfterAll acc x xs t m s.0)
    ∙ ground (
      arith,
      fetch_version-push_newest acc x q t m,
      latest-Later (fetch_version acc q) xs q,
      Later-mono q x.version xs,
    )

-- The chain that `load` makes of the chain of a snapshot.
abbrev pub rebuilt : Option Versions → Option Versions
rebuilt none = none
rebuilt (some []) = none
rebuilt (some (v ∷ vs)) = some (push_all [] (all_versions (v ∷ vs)))

pub chain_read-rebuilt :
    (o : Option Versions) (q : ℕ) → ChainIsSorted o → chain_read (rebuilt o) q ≡ chain_read o q
chain_read-rebuilt none q s = refl
chain_read-rebuilt (some []) q s = sym (fetch_version-nil q)
chain_read-rebuilt (some (v ∷ vs)) q s =
    fetch_version-push_all (v ∷ vs) [] q s tt tt
    ∙ ap (λ d. latest d (v ∷ vs) q) (fetch_version-nil q)
    ∙ sym (fetch_version-eq (v ∷ vs) q s)

pub rebuilt-ChainIsSorted : (o : Option Versions) → ChainIsSorted (rebuilt o)
rebuilt-ChainIsSorted none = tt
rebuilt-ChainIsSorted (some []) = tt
rebuilt-ChainIsSorted (some (v ∷ vs)) = push_all-IsSorted (v ∷ vs) [] tt

pub rebuilt-ChainAtMost :
    (b : ℕ) (o : Option Versions) → ChainAtMost b o → ChainAtMost b (rebuilt o)
rebuilt-ChainAtMost b none m = tt
rebuilt-ChainAtMost b (some []) m = tt
rebuilt-ChainAtMost b (some (v ∷ vs)) m = push_all-AtMost b (v ∷ vs) [] tt tt m

pub absent_here :
    (k : Bytes) (m : BTreeMap Bytes Versions) (j : Bytes)
    → Above k m
    → eqb j k ≡ true
    → BTreeMap.get j m ≡ none
absent_here k m j a here = rw ((eqb_iff j k).0 here) (get-Above k m a)

abbrev pub or_else : Option Versions → Option Versions → Option Versions
or_else none old = old
or_else (some vs) old = some vs

pub or_else-none : (o : Option Versions) → or_else o none ≡ o
or_else-none none = refl
or_else-none (some vs) = refl
