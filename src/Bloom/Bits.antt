-- ===== src/Bloom/Bits.antt =====
-- The bitmap: one bit is set and the others stay.
use Prim.Native.Nat.{bit_and, bit_or, bit_and-bitwise}
use stupid_kv.Base.{
  ℕ, zero, suc, ◌/◌, ◌%◌, ◌^◌, ◌<◌, ◌≡◌, refl, ◌∙◌, Bool, true, false, not, ◌&&◌, ◌||◌, List, [],
  ◌∷◌, arith, ◌==◌, ltb, if◌then◌else◌, length, set, replicate, get_or, length-set,
}
use stupid_kv.Bloom.{set_bit, has_bit, bloom_bytes}

every_below : ℕ → (ℕ → Bool) → Bool
every_below zero test = true
every_below (suc n) test = test n && every_below n test

every_below-at :
    (n : ℕ) (test : ℕ → Bool) (x : ℕ) → every_below n test ≡ true → x < n → test x ≡ true
unfolding every_below
every_below-at zero test x all h = absurd (omega arith)
every_below-at (suc n) test x all h = ground (arith, every_below-at n test x)

abbrev on : ℕ → ℕ → Bool
on b j = not (bit_and b (2 ^ j) == 0)

abbrev agree : Bool → Bool → Bool
agree a b = if a then b else not b

agree-eq : (a b : Bool) → agree a b ≡ true → a ≡ b
agree-eq a b h = ground arith

-- The law of one byte: after setting bit `i`, bit `j` is on if it is that bit or was on before.
byte_law : ℕ → ℕ → ℕ → Bool
byte_law i j b = ltb (bit_or b (2 ^ i)) 256 && agree (on (bit_or b (2 ^ i)) j) (i == j || on b j)

-- It holds of every byte and every two bits, as evaluation shows.
byte_table : every_below 8 (λ i. every_below 8 (λ j. every_below 256 (byte_law i j))) ≡ true
unfolding every_below byte_law
byte_table = refl

byte_law-true : (i j b : ℕ) → i < 8 → j < 8 → b < 256 → byte_law i j b ≡ true
byte_law-true i j b hi hj hb =
    every_below-at 256 (byte_law i j) b
      (every_below-at 8 (λ j. every_below 256 (byte_law i j)) j
        (every_below-at 8 (λ i. every_below 8 (λ j. every_below 256 (byte_law i j))) i byte_table
          hi)
        hj)
      hb

set_byte-lt : (i b : ℕ) → i < 8 → b < 256 → bit_or b (2 ^ i) < 256
unfolding byte_law
set_byte-lt i b hi hb = ground (arith, byte_law-true i 0 b hi (omega arith) hb)

on-set_byte : (i j b : ℕ) → i < 8 → j < 8 → b < 256 → on (bit_or b (2 ^ i)) j ≡ (i == j || on b j)
unfolding byte_law
on-set_byte i j b hi hj hb =
    agree-eq (on (bit_or b (2 ^ i)) j) (i == j || on b j)
      (ground (arith, byte_law-true i j b hi hj hb))

-- 512 bytes, each below 256.
pub record IsBitmap (bits : List ℕ) : Type 0 where
  pub size : length bits ≡ bloom_bytes
  pub bytes : (i : ℕ) → get_or bits i 0 < 256

get_or-set :
    (xs : List ℕ) (i j v : ℕ)
    → i < length xs
    → get_or (set xs i v) j 0 ≡ (if i == j then v else get_or xs j 0)
get_or-set [] i j v h = elim h [ ]
get_or-set (x ∷ xs) zero zero v h = refl
get_or-set (x ∷ xs) zero (suc j) v h = ground arith
get_or-set (x ∷ xs) (suc i) zero v h = ground arith
get_or-set (x ∷ xs) (suc i) (suc j) v h = ground (arith, get_or-set xs i j v (omega arith))

get_or-replicate : (n i : ℕ) → get_or {A = ℕ} (replicate n 0) i 0 ≡ 0
get_or-replicate zero i = refl
get_or-replicate (suc n) zero = refl
get_or-replicate (suc n) (suc i) = get_or-replicate n i

pub replicate-IsBitmap : IsBitmap (replicate bloom_bytes 0)
replicate-IsBitmap = record {
  size = refl;
  bytes = λ i. omega (arith, get_or-replicate bloom_bytes i);
}

-- A position is its byte and its bit.
same_position : (p q : ℕ) → p / 8 ≡ q / 8 → (p % 8 == q % 8) ≡ (p == q)
same_position p q h = ground arith

module _ (bits : List ℕ) (p : ℕ) (v : IsBitmap bits) (h : p < 4096) where
  pub set_bit-IsBitmap : IsBitmap (set_bit bits p)
  unfolding set_bit
  set_bit-IsBitmap = record {
    size = length-set bits (p / 8) _ ∙ v.size;
    bytes = λ i. ground (
      arith,
      get_or-set bits (p / 8) i (bit_or (get_or bits (p / 8) 0) (2 ^ (p % 8)))
          (omega (arith, v.size)),
      set_byte-lt (p % 8) (get_or bits (p / 8) 0) (omega arith) (v.bytes (p / 8)),
      v.bytes i,
    );
  }

  -- Setting the bit at `p` turns that one bit on, and changes no other.
  pub has_bit-set_bit : (q : ℕ) → has_bit (set_bit bits p) q ≡ (p == q || has_bit bits q)
  unfolding set_bit has_bit
  has_bit-set_bit q = ground (
    arith,
    get_or-set bits (p / 8) (q / 8) (bit_or (get_or bits (p / 8) 0) (2 ^ (p % 8)))
        (omega (arith, v.size)),
    on-set_byte (p % 8) (q % 8) (get_or bits (p / 8) 0) (omega arith) (omega arith)
        (v.bytes (p / 8)),
    same_position p q,
  )

zero-bit_and : (b : ℕ) → bit_and 0 b ≡ 0
zero-bit_and b = bit_and-bitwise 0 b

pub has_bit-empty : (q : ℕ) → has_bit (replicate bloom_bytes 0) q ≡ false
unfolding has_bit
has_bit-empty q = rw (get_or-replicate bloom_bytes (q / 8), zero-bit_and (2 ^ (q % 8)))
