-- ===== src/Queue/Keys.antt =====
-- Membership in lists of keys, and the order of byte strings.
use stupid_kv.Base.{
  ◌≡◌, refl, sym, Bool, true, false, not, ◌||◌, List, [], ◌∷◌, Bytes, bytes_ord, Ordering,
  cmp_bytes, eqb_iff, eqb_refl, any, arith, Bool-cases, inl, inr,
}
use stupid_kv.Base.Order.{bytes_trans, bytes_lt, bytes_gt}
use stupid_kv.Base.BTreeMap.{BTreeMap, keys, Above, IsAscending}
use stupid_kv.Base.BTreeMap
use stupid_kv.Bloom.Contains.{elem}
use stupid_kv.Queue.{Writeset, disjoint_keys, contains_key}

pub any-eq-false :
    (p : Bytes → Bool) (xs : List Bytes)
    → ((k : Bytes) → elem k xs ≡ true → p k ≡ false)
    → any p xs ≡ false
unfolding any
any-eq-false p [] h = refl
any-eq-false p (x ∷ xs) h =
    ground (arith, h x, eqb_refl x, any-eq-false p xs (λ k m. h k (ground arith)))

pub any-eq-true :
    (p : Bytes → Bool) (xs : List Bytes) (k : Bytes)
    → elem k xs ≡ true
    → p k ≡ true
    → any p xs ≡ true
unfolding any
any-eq-true p [] k m h = cc
any-eq-true p (x ∷ xs) k m h = ground (arith, eqb_iff k x, any-eq-true p xs k)

-- What holds of no key of the list holds of none of its members.
pub any-false :
    (p : Bytes → Bool) (xs : List Bytes) (k : Bytes)
    → any p xs ≡ false
    → elem k xs ≡ true
    → p k ≡ false
any-false p xs k h m = elim (Bool-cases (p k)) [ inl t ↦ cc (any-eq-true p xs k m t) | inr f ↦ f ]

-- Two lists of keys share one.
abbrev pub overlap : List Bytes → List Bytes → Bool
overlap as' bs = any (λ k. elem k bs) as'

-- All keys of the list are greater.
abbrev pub KeysAbove : Bytes → List Bytes → Type 0
KeysAbove a [] = Unit {0}
KeysAbove a (b ∷ bs) = (cmp_bytes a b ≡ Ordering.lt) × KeysAbove a bs

abbrev pub KeysAscending : List Bytes → Type 0
KeysAscending [] = Unit {0}
KeysAscending (a ∷ as') = KeysAbove a as' × KeysAscending as'

pub keys-Above : (k : Bytes) (w : Writeset) → Above k w → KeysAbove k (keys w)
keys-Above k [] a = tt
keys-Above k ((j, v) ∷ w) a = (a.0, keys-Above k w a.1)

pub keys-Ascending : (w : Writeset) → IsAscending w → KeysAscending (keys w)
keys-Ascending [] s = tt
keys-Ascending ((k, v) ∷ w) s = (keys-Above k w s.0, keys-Ascending w s.1)

KeysAbove-trans :
    (a b : Bytes) (l : List Bytes) → cmp_bytes a b ≡ Ordering.lt → KeysAbove b l → KeysAbove a l
KeysAbove-trans a b [] h l = tt
KeysAbove-trans a b (x ∷ xs) h l = (bytes_trans a b x h l.0, KeysAbove-trans a b xs h l.1)

elem-KeysAbove : (a : Bytes) (l : List Bytes) → KeysAbove a l → elem a l ≡ false
unfolding any
elem-KeysAbove a [] h = refl
elem-KeysAbove a (b ∷ bs) h = ground (arith, elem-KeysAbove a bs h.1)

overlap-skip :
    (b : Bytes) (as' bs : List Bytes) → KeysAbove b as' → overlap as' (b ∷ bs) ≡ overlap as' bs
unfolding any
overlap-skip b [] bs h = refl
overlap-skip b (a ∷ as') bs h = ground (arith, overlap-skip b as' bs h.1, bytes_gt b a)

pub overlap-nil : (as' : List Bytes) → overlap as' [] ≡ false
unfolding any
overlap-nil [] = refl
overlap-nil (a ∷ as') = ground (arith, overlap-nil as')

-- On ascending lists the walk in step finds a common key exactly when there is one.
pub disjoint_keys-eq :
    (as' bs : List Bytes)
    → KeysAscending as'
    → KeysAscending bs
    → disjoint_keys as' bs ≡ not (overlap as' bs)
unfolding disjoint_keys any
disjoint_keys-eq [] bs s t = refl
disjoint_keys-eq (a ∷ as') [] s t = ground (arith, overlap-nil as')
disjoint_keys-eq (a ∷ as') (b ∷ bs) s t = ground (
  arith,
  disjoint_keys-eq as' (b ∷ bs) s.1 t,
  disjoint_keys-eq (a ∷ as') bs s t.1,
  elem-KeysAbove a bs,
  KeysAbove-trans a b bs,
  overlap-skip b as' bs,
  KeysAbove-trans b a as',
  bytes_lt a b,
)

overlap-cons :
    (bs : List Bytes) (a : Bytes) (as' : List Bytes)
    → overlap bs (a ∷ as') ≡ (elem a bs || overlap bs as')
unfolding any
overlap-cons [] a as' = refl
overlap-cons (b ∷ bs) a as' = ground (arith, overlap-cons bs a as', eqb_iff a b, eqb_iff b a)

pub overlap_comm : (as' bs : List Bytes) → overlap as' bs ≡ overlap bs as'
unfolding any
overlap_comm [] bs = sym (overlap-nil bs)
overlap_comm (a ∷ as') bs = ground (arith, overlap_comm as' bs, overlap-cons bs a as')

pub contains_key-eq : (w : Writeset) (k : Bytes) → contains_key w k ≡ elem k (keys w)
unfolding BTreeMap.get any
contains_key-eq [] k = refl
contains_key-eq ((j, v) ∷ w) k = ground (arith, contains_key-eq w k)
