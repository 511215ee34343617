-- ===== src/Bloom/Contains.antt =====
-- The filter has no false negatives.
use stupid_kv.Base.{
  ℕ, ◌<◌, ◌≡◌, refl, Bool, true, false, List, [], ◌∷◌, arith, Bytes, any, bytes_ord, eqb, eqb_iff,
  Bool-cases, subst, inl, inr,
}
use stupid_kv.Bloom.{
  BloomFilter, new, clear, insert, may_contain, is_empty, set_bits, has_bits, has_bit, set_bit,
  position, bloom_bits, rounds,
}
use stupid_kv.Bloom.Bits.{
  IsBitmap, replicate-IsBitmap, set_bit-IsBitmap, has_bit-set_bit, has_bit-empty,
}

position-lt : (key : Bytes) (i : ℕ) → position key i < bloom_bits
unfolding position
position-lt key i = omega arith

set_bits-IsBitmap :
    (key : Bytes) (is bits : List ℕ) → IsBitmap bits → IsBitmap (set_bits key is bits)
unfolding set_bits
set_bits-IsBitmap key [] bits v = v
set_bits-IsBitmap key (i ∷ is) bits v =
    set_bits-IsBitmap key is (set_bit bits (position key i))
      (set_bit-IsBitmap bits (position key i) v (position-lt key i))

-- A bit that is on stays on.
has_bit-set_bits :
    (key : Bytes) (is bits : List ℕ) (q : ℕ)
    → IsBitmap bits
    → has_bit bits q ≡ true
    → has_bit (set_bits key is bits) q ≡ true
unfolding set_bits
has_bit-set_bits key [] bits q v h = h
has_bit-set_bits key (i ∷ is) bits q v h =
    let p = position key i in
    has_bit-set_bits key is (set_bit bits p) q (set_bit-IsBitmap bits p v (position-lt key i))
      (ground (arith, has_bit-set_bit bits p v (position-lt key i) q))

has_bits_mono :
    (key j : Bytes) (is js bits : List ℕ)
    → IsBitmap bits
    → has_bits key is bits ≡ true
    → has_bits key is (set_bits j js bits) ≡ true
unfolding has_bits
has_bits_mono key j [] js bits v h = refl
has_bits_mono key j (i ∷ is) js bits v h =
    ground (arith, has_bits_mono key j is js bits v, has_bit-set_bits j js bits (position key i) v)

has_bits-set_bits :
    (key : Bytes) (is bits : List ℕ) → IsBitmap bits → has_bits key is (set_bits key is bits) ≡ true
unfolding has_bits set_bits
has_bits-set_bits key [] bits v = refl
has_bits-set_bits key (i ∷ is) bits v =
    let p = position key i in
    let v' = set_bit-IsBitmap bits p v (position-lt key i) in
    ground (
      arith,
      has_bits-set_bits key is (set_bit bits p) v',
      has_bit-set_bits key is (set_bit bits p) p v',
      has_bit-set_bit bits p v (position-lt key i) p,
    )

-- The filters that the code builds.
pub record IsFilter (bf : BloomFilter) : Type 0 where
  pub bitmap : IsBitmap bf.bits

pub new-IsFilter : IsFilter new
unfolding new
new-IsFilter = record { bitmap = replicate-IsBitmap }

pub clear-IsFilter : (bf : BloomFilter) → IsFilter (clear bf)
unfolding clear
clear-IsFilter bf = record { bitmap = replicate-IsBitmap }

pub insert-IsFilter : (key : Bytes) (bf : BloomFilter) → IsFilter bf → IsFilter (insert key bf)
unfolding insert
insert-IsFilter key bf v = record { bitmap = set_bits-IsBitmap key rounds bf.bits v.bitmap }

pub may_contain-insert_self :
    (key : Bytes) (bf : BloomFilter) → IsFilter bf → may_contain key (insert key bf) ≡ true
unfolding may_contain insert
may_contain-insert_self key bf v = has_bits-set_bits key rounds bf.bits v.bitmap

pub may_contain-insert :
    (key j : Bytes) (bf : BloomFilter)
    → IsFilter bf
    → may_contain key bf ≡ true
    → may_contain key (insert j bf) ≡ true
unfolding may_contain insert
may_contain-insert key j bf v h = has_bits_mono key j rounds rounds bf.bits v.bitmap h

-- The loop that fills a filter.
unfoldable pub insert_all : List Bytes → BloomFilter → BloomFilter
insert_all [] bf = bf
insert_all (k ∷ ks) bf = insert_all ks (insert k bf)

abbrev pub elem : Bytes → List Bytes → Bool
elem k ks = any (eqb k) ks

insert_all_mono :
    (ks : List Bytes) (key : Bytes) (bf : BloomFilter)
    → IsFilter bf
    → may_contain key bf ≡ true
    → may_contain key (insert_all ks bf) ≡ true
unfolding insert_all
insert_all_mono [] key bf v h = h
insert_all_mono (k ∷ ks) key bf v h =
    insert_all_mono ks key (insert k bf) (insert-IsFilter k bf v) (may_contain-insert key k bf v h)

-- After the insertion of a list of keys into a filter with a whole bitmap, every key of the list
-- is found: the filter has no false negatives.
pub may_contain-insert_all :
    (ks : List Bytes) (key : Bytes) (bf : BloomFilter)
    → IsFilter bf
    → elem key ks ≡ true
    → may_contain key (insert_all ks bf) ≡ true
unfolding insert_all any
may_contain-insert_all [] key bf v h = cc
may_contain-insert_all (k ∷ ks) key bf v h = elim (Bool-cases (eqb key k)) [
  | inl same_key ↦ insert_all_mono ks key (insert k bf) (insert-IsFilter k bf v) (
      subst (λ j. may_contain key (insert j bf) ≡ true) ((eqb_iff key k).0 same_key)
        (may_contain-insert_self key bf v))
  | inr other ↦ may_contain-insert_all ks key (insert k bf) (insert-IsFilter k bf v) (ground arith)
]

-- A new or cleared filter finds no key, and a cleared one is empty.
pub may_contain-clear :
    (key : Bytes) (bf : BloomFilter)
    → (may_contain key (clear bf) ≡ false)
      × (may_contain key new ≡ false)
      × (is_empty (clear bf) ≡ true)
unfolding may_contain clear new is_empty has_bits
may_contain-clear key bf = ground (arith, has_bit-empty (position key 0))
