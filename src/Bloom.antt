-- ===== src/Bloom.antt =====
-- src/bloom/bloom.rs: the Bloom filter over a bitmap of 512 bytes, with its FNV-1a hash.
pub mod Bits
pub mod Contains
use Prim.Native.Nat.{bit_and, bit_or, bit_xor}
use stupid_kv.Base.{
  ℕ, zero, suc, ◌+◌, ◌*◌, ◌/◌, ◌%◌, ◌^◌, Bool, true, false, not, ◌&&◌, List, [], ◌∷◌, Bytes, ◌==◌,
  if◌then◌else◌, set, replicate, u64_mod, add_u64, get_or,
}

abbrev pub bloom_bits : ℕ
bloom_bits = 4096

abbrev pub bloom_bytes : ℕ
bloom_bytes = bloom_bits / 8

-- `0..BLOOM_HASHE_NUMS`.
abbrev pub rounds : List ℕ
rounds = 0 ∷ 1 ∷ 2 ∷ []

pub record BloomFilter : Type 0 where
  pub bits : List ℕ
  pub count : ℕ

unfoldable pub new : BloomFilter
new = record { bits = replicate bloom_bytes 0; count = 0 }

-- `u64::wrapping_mul`, and `rotate_left(31)`: the high 31 bits come in at the low end.
abbrev mul_u64 : ℕ → ℕ → ℕ
mul_u64 a b = a * b % u64_mod

abbrev rotate_left_31 : ℕ → ℕ
rotate_left_31 a = a * 2 ^ 31 % u64_mod + a / 2 ^ 33

unfoldable pub fnv : ℕ → Bytes → ℕ
fnv h1 [] = h1
fnv h1 (byte ∷ key) = fnv (mul_u64 (bit_xor h1 byte) 0x100000001b3) key

unfoldable pub hash : Bytes → ℕ × ℕ
unfolding fnv
hash key =
    let h1 = fnv 0xcbf29ce484222325 key in (h1, rotate_left_31 (mul_u64 h1 0x9e3779b97f4a7c15))

unfoldable pub nth_hash : ℕ × ℕ → ℕ → ℕ
nth_hash hashes n = add_u64 hashes.0 (mul_u64 n hashes.1)

-- The bit position of one round.
unfoldable pub position : Bytes → ℕ → ℕ
unfolding hash nth_hash
position key i = nth_hash (hash key) i % bloom_bits

-- `self.bits[bucket] |= 1 << bit`, and the test of a bit. A position lies below 4096, so the byte
-- is there; beyond the bitmap the source would panic.
unfoldable pub set_bit : List ℕ → ℕ → List ℕ
set_bit bits hash = set bits (hash / 8) (bit_or (get_or bits (hash / 8) 0) (2 ^ (hash % 8)))

unfoldable pub has_bit : List ℕ → ℕ → Bool
has_bit bits hash = not (bit_and (get_or bits (hash / 8) 0) (2 ^ (hash % 8)) == 0)

unfoldable pub set_bits : Bytes → List ℕ → List ℕ → List ℕ
set_bits key [] bits = bits
set_bits key (i ∷ is) bits = set_bits key is (set_bit bits (position key i))

unfoldable pub has_bits : Bytes → List ℕ → List ℕ → Bool
has_bits key [] bits = true
has_bits key (i ∷ is) bits =
    let rest = has_bits key is bits in if has_bit bits (position key i) then rest else false

unfoldable pub insert : Bytes → BloomFilter → BloomFilter
insert key bf = record { bits = set_bits key rounds bf.bits; count = add_u64 bf.count 1 }

unfoldable pub may_contain : Bytes → BloomFilter → Bool
may_contain key bf = has_bits key rounds bf.bits

unfoldable pub is_empty : BloomFilter → Bool
is_empty bf = bf.count == 0

unfoldable pub clear : BloomFilter → BloomFilter
clear bf = record { bits = replicate bloom_bytes 0; count = 0 }
