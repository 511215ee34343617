-- ===== src/Base/Order.antt =====
-- The total order of the keys: u64 and byte strings, as `Ord::cmp` orders them.
use Prim.Native.Nat.{ℕ, compare, Ordering}
use mathlib.Core.Path.{◌≡◌, refl}
use mathlib.Core.Logic.{◌↔◌}
use mathlib.Core.Bool.{Bool, true, false}
use mathlib.Core.List.{List, [], ◌∷◌}
use native.Mathlib.Omega.{arith}

pub record Ord (K : Type 0) : Type 0 where
  pub cmp : K → K → Ordering
  pub cmp_refl : (a : K) → cmp a a ≡ Ordering.eq
  pub cmp_eq : (a b : K) → cmp a b ≡ Ordering.eq → a ≡ b
  pub cmp_gt : (a b : K) → cmp a b ≡ Ordering.lt → cmp b a ≡ Ordering.gt
  pub cmp_lt : (a b : K) → cmp a b ≡ Ordering.gt → cmp b a ≡ Ordering.lt
  pub cmp_trans :
      (a b c : K) → cmp a b ≡ Ordering.lt → cmp b c ≡ Ordering.lt → cmp a c ≡ Ordering.lt

-- `==` of a key type.
abbrev pub eqb : {K : Type 0} ⦃o : Ord K⦄ → K → K → Bool
eqb ⦃o⦄ a b = elim (o.cmp a b) [ Ordering.eq ↦ true | _ ↦ false ]

module _ {K : Type 0} ⦃o : Ord K⦄ where
  pub eqb_refl : (a : K) → eqb a a ≡ true
  eqb_refl a = rw (o.cmp_refl a, eqb)

  pub eqb_iff : (a b : K) → (eqb a b ≡ true) ↔ (a ≡ b)
  eqb_iff a b = (λ h. o.cmp_eq a b (ground arith), λ e. rw (← e) (eqb_refl a))

pub nat_refl : (a : ℕ) → compare a a ≡ Ordering.eq
nat_refl a = ground arith

pub nat_eq : (a b : ℕ) → compare a b ≡ Ordering.eq → a ≡ b
nat_eq a b h = ground arith

pub nat_gt : (a b : ℕ) → compare a b ≡ Ordering.lt → compare b a ≡ Ordering.gt
nat_gt a b h = ground arith

pub nat_lt : (a b : ℕ) → compare a b ≡ Ordering.gt → compare b a ≡ Ordering.lt
nat_lt a b h = ground arith

pub nat_trans :
    (a b c : ℕ) → compare a b ≡ Ordering.lt → compare b c ≡ Ordering.lt → compare a c ≡ Ordering.lt
nat_trans a b c p q = ground arith

instance abbrev pub nat_ord : Ord ℕ
nat_ord = record {
  cmp = compare;
  cmp_refl = nat_refl;
  cmp_eq = nat_eq;
  cmp_gt = nat_gt;
  cmp_lt = nat_lt;
  cmp_trans = nat_trans;
}

-- A byte string (`bytes::Bytes`), each byte below 256.
abbrev pub Bytes : Type 0
Bytes = List ℕ

-- The lexicographic order of byte slices.
unfoldable pub cmp_bytes : Bytes → Bytes → Ordering
cmp_bytes [] [] = Ordering.eq
cmp_bytes [] (b ∷ bs) = Ordering.lt
cmp_bytes (a ∷ as') [] = Ordering.gt
cmp_bytes (a ∷ as') (b ∷ bs) =
    let rest = cmp_bytes as' bs in
    elim (compare a b) [
      | Ordering.lt ↦ Ordering.lt
      | Ordering.eq ↦ rest
      | Ordering.gt ↦ Ordering.gt
    ]

pub bytes_refl : (a : Bytes) → cmp_bytes a a ≡ Ordering.eq
unfolding cmp_bytes
bytes_refl [] = refl
bytes_refl (a ∷ as') = ground (arith, bytes_refl as')

pub bytes_eq : (a b : Bytes) → cmp_bytes a b ≡ Ordering.eq → a ≡ b
unfolding cmp_bytes
bytes_eq [] [] h = refl
bytes_eq [] (b ∷ bs) h = cc
bytes_eq (a ∷ as') [] h = cc
bytes_eq (a ∷ as') (b ∷ bs) h = ground (arith, bytes_eq as' bs)

pub bytes_gt : (a b : Bytes) → cmp_bytes a b ≡ Ordering.lt → cmp_bytes b a ≡ Ordering.gt
unfolding cmp_bytes
bytes_gt [] [] h = cc
bytes_gt [] (b ∷ bs) h = refl
bytes_gt (a ∷ as') [] h = cc
bytes_gt (a ∷ as') (b ∷ bs) h = ground (arith, bytes_gt as' bs)

pub bytes_lt : (a b : Bytes) → cmp_bytes a b ≡ Ordering.gt → cmp_bytes b a ≡ Ordering.lt
unfolding cmp_bytes
bytes_lt [] [] h = cc
bytes_lt [] (b ∷ bs) h = cc
bytes_lt (a ∷ as') [] h = refl
bytes_lt (a ∷ as') (b ∷ bs) h = ground (arith, bytes_lt as' bs)

pub bytes_trans :
    (a b c : Bytes)
    → cmp_bytes a b ≡ Ordering.lt
    → cmp_bytes b c ≡ Ordering.lt
    → cmp_bytes a c ≡ Ordering.lt
unfolding cmp_bytes
bytes_trans [] b [] p q = absurd (no_lt b q)
  where
    no_lt : (b : Bytes) → cmp_bytes b [] ≡ Ordering.lt → ⊥
    no_lt [] e = cc
    no_lt (x ∷ xs) e = cc
bytes_trans [] b (c ∷ cs) p q = refl
bytes_trans (a ∷ as') [] c p q = cc
bytes_trans (a ∷ as') (b ∷ bs) [] p q = cc
bytes_trans (a ∷ as') (b ∷ bs) (c ∷ cs) p q = ground (arith, bytes_trans as' bs cs)

instance abbrev pub bytes_ord : Ord Bytes
bytes_ord = record {
  cmp = cmp_bytes;
  cmp_refl = bytes_refl;
  cmp_eq = bytes_eq;
  cmp_gt = bytes_gt;
  cmp_lt = bytes_lt;
  cmp_trans = bytes_trans;
}
