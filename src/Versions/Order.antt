-- ===== src/Versions/Order.antt =====
-- The order of a chain, and the plain meaning of a chain: the value that a snapshot sees.
use stupid_kv.Base.{
  ℕ, ◌≤◌, ◌<◌, ◌≡◌, refl, true, Option, none, some, [], ◌∷◌, arith, Bytes, ltb, leb, ◌==◌,
  if◌then◌else◌, eqb_iff, bytes_ord,
}
use stupid_kv.Versions.{Version, Versions, same}

-- All versions of the chain are greater than the bound; the chain ascends strictly.
abbrev pub Later : ℕ → Versions → Type 0
Later b [] = Unit {0}
Later b (x ∷ xs) = (b < x.version) × Later b xs

abbrev pub IsSorted : Versions → Type 0
IsSorted [] = Unit {0}
IsSorted (x ∷ xs) = Later x.version xs × IsSorted xs

-- The value of the newest version that is at most `q`, and `d` where there is none.
unfoldable pub latest : Option Bytes → Versions → ℕ → Option Bytes
latest d [] q = d
latest d (x ∷ xs) q = if leb x.version q then latest x.value xs q else d

-- The plain write into a chain: every version is kept, and a version that is there is replaced.
unfoldable pub overwrite : Versions → Version → Versions
overwrite [] v = v ∷ []
overwrite (x ∷ xs) v =
    if ltb x.version v.version
    then x ∷ overwrite xs v
    else if x.version == v.version
    then v ∷ xs
    else v ∷ x ∷ xs

pub same_eq : (a b : Option Bytes) → same a b ≡ true → a ≡ b
same_eq none none h = refl
same_eq none (some b) h = cc
same_eq (some a) none h = cc
same_eq (some a) (some b) h = cc ((eqb_iff a b).0 h)

pub same_comm : (a b : Option Bytes) → same a b ≡ same b a
same_comm none none = refl
same_comm none (some b) = refl
same_comm (some a) none = refl
same_comm (some a) (some b) = ground (arith, eqb_iff a b, eqb_iff b a)

pub Later-mono : (a b : ℕ) (vs : Versions) → a ≤ b → Later b vs → Later a vs
Later-mono a b [] h l = tt
Later-mono a b (x ∷ xs) h l = (omega arith, Later-mono a b xs h l.1)

-- Nothing of a chain beyond `q` is seen at `q`.
pub latest-Later : (d : Option Bytes) (vs : Versions) (q : ℕ) → Later q vs → latest d vs q ≡ d
unfolding latest
latest-Later d [] q l = refl
latest-Later d (x ∷ xs) q l = ground arith
