-- ===== src/Base/Collections/Instance.antt =====
-- A concrete choice of the third-party collections, which shows that their laws can hold: lists.
use mathlib.Core.Path.{◌≡◌, refl}
use mathlib.Core.Bool.{Bool, true, false, ◌||◌}
use mathlib.Core.Option.{Option, none, some}
use mathlib.Core.List.{List, [], ◌∷◌, ◌++◌}
use native.Mathlib.Omega.{arith}
use Prim.Native.Nat.{ℕ}
use stupid_kv.Base.Tests.{if◌then◌else◌, ltb}
use stupid_kv.Base.Lists.{length, any}
use stupid_kv.Base.Order.{Ord, Bytes, bytes_ord, eqb}
use stupid_kv.Base.BTreeMap.{BTreeMap, IsAscending, insert-IsAscending}
use stupid_kv.Base.BTreeMap
use stupid_kv.Base.Collections.{Crates}
use stupid_kv.Base.Collections.Plain.{
  encode_write, decode_write, decode_write-encode_write, decode_write_part, encode_chain,
  decode_chain, decode_chain-encode_chain, decode_chain_part,
}

-- The entries of a list of writes, the last write first.
unfoldable pub sort_entries : (K V : Type 0) → Ord K → List (K × V) → BTreeMap K V
unfolding BTreeMap.insert
sort_entries K V o [] = []
sort_entries K V o ((k, v) ∷ m) = BTreeMap.insert ⦃o = o⦄ k v (sort_entries K V o m)

pub get_list-empty : (K V : Type 0) (o : Ord K) (k : K) → BTreeMap.get {V = V} ⦃o = o⦄ k [] ≡ none
unfolding BTreeMap.get
get_list-empty K V o k = refl

pub get_list-insert :
    (K V : Type 0) (o : Ord K) (m : List (K × V)) (k : K) (v : V) (j : K)
    → BTreeMap.get ⦃o = o⦄ j ((k, v) ∷ m)
      ≡ (if eqb ⦃o = o⦄ j k then some v else BTreeMap.get ⦃o = o⦄ j m)
unfolding BTreeMap.get
get_list-insert K V o m k v j = refl

pub any-empty : (k : Bytes) → any (eqb k) [] ≡ false
unfolding any
any-empty k = refl

pub any-add : (s : List Bytes) (k j : Bytes) → any (eqb j) (k ∷ s) ≡ (eqb j k || any (eqb j) s)
unfolding any
any-add s k j = refl

pub get-sort_entries :
    (K V : Type 0) (o : Ord K) (m : List (K × V)) (k : K)
    → BTreeMap.get ⦃o = o⦄ k (sort_entries K V o m) ≡ BTreeMap.get ⦃o = o⦄ k m
unfolding sort_entries
get-sort_entries K V o [] k = refl
get-sort_entries K V o ((j, v) ∷ m) k = ground (
  arith,
  BTreeMap.get-insert ⦃o = o⦄ j k v (sort_entries K V o m),
  get-sort_entries K V o m k,
  get_list-insert K V o m j v k,
)

pub sort_entries-IsAscending :
    (K V : Type 0) (o : Ord K) (m : List (K × V)) → IsAscending ⦃o = o⦄ (sort_entries K V o m)
unfolding sort_entries
sort_entries-IsAscending K V o [] = tt
sort_entries-IsAscending K V o ((k, v) ∷ m) =
    insert-IsAscending ⦃o = o⦄ k v (sort_entries K V o m) (sort_entries-IsAscending K V o m)

unfoldable pub pop_list : (A : Type 0) → List A → Option (A × List A)
pop_list A [] = none
pop_list A (a ∷ rest) = some (a, rest)

abbrev pub full_or : (A : Type 0) → ℕ × List A → A → Option (ℕ × List A)
full_or A (n, q) a = if ltb (length q) n then some (n, q ++ a ∷ []) else none

abbrev pub pop_bounded : (A : Type 0) → ℕ × List A → Option (A × (ℕ × List A))
pop_bounded A (n, []) = none
pop_bounded A (n, a ∷ rest) = some (a, (n, rest))

pub pop_list-none : (A : Type 0) (q : List A) → q ≡ [] → pop_list A q ≡ none
unfolding pop_list
pop_list-none A q e = rw e refl

pub pop_list-some :
    (A : Type 0) (q : List A) (a : A) (rest : List A)
    → q ≡ a ∷ rest
    → (r : List A) × (pop_list A q ≡ some (a, r)) × (r ≡ rest)
unfolding pop_list
pop_list-some A q a rest e = (rest, rw e refl, refl)

abbrev pub after_magic : Bytes → Option (Bytes × Bool)
after_magic (a ∷ b ∷ c ∷ d ∷ xs) = some (xs, true)
after_magic xs = none

instance abbrev pub list_crates : Crates
list_crates = record {
  SkipMap = λ K V. List (K × V);
  empty = λ K V. [];
  get = λ K V o m k. BTreeMap.get ⦃o = o⦄ k m;
  insert = λ K V o m k v. (k, v) ∷ m;
  remove = λ K V o m k. BTreeMap.remove ⦃o = o⦄ k m;
  iter = sort_entries;
  get-empty = get_list-empty;
  get-insert = get_list-insert;
  get-remove = λ K V o m k j. BTreeMap.get-remove ⦃o = o⦄ k j m;
  get-iter = get-sort_entries;
  iter-IsAscending = sort_entries-IsAscending;
  HashSet = List Bytes;
  no_keys = [];
  add_key = λ s k. k ∷ s;
  contains = λ s k. any (eqb k) s;
  members = λ s. s;
  contains-no_keys = any-empty;
  contains-add_key = any-add;
  contains-members = λ s k. refl;
  ArrayQueue = λ A. ℕ × List A;
  array_queue = λ A n. (n, []);
  try_push = full_or;
  try_pop = pop_bounded;
  SegQueue = List;
  seg_queue = λ A. [];
  push = λ A q a. q ++ a ∷ [];
  pop = pop_list;
  queued = λ A q. q;
  queued-push = λ A q a. refl;
  pop_none = pop_list-none;
  pop_some = pop_list-some;
  lz4_write = λ xs. 4 ∷ 34 ∷ 77 ∷ 24 ∷ xs;
  lz4_read = after_magic;
  lz4_read-lz4_write = λ xs. refl;
  lz4_magic = λ xs. (xs, refl);
  write_codec = record {
    encode = encode_write;
    decode = decode_write;
    decode-encode = decode_write-encode_write;
    decode_part = decode_write_part;
  };
  chain_codec = record {
    encode = encode_chain;
    decode = decode_chain;
    decode-encode = decode_chain-encode_chain;
    decode_part = decode_chain_part;
  };
}
