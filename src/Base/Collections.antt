-- ===== src/Base/Collections.antt =====
-- The third-party crates that the program calls, by their documented behaviour:
-- `crossbeam_skiplist::SkipMap`, `papaya::HashSet`, `crossbeam_queue::{ArrayQueue, SegQueue}`, `bincode`,
-- `lz4`. The definitions of the other modules take them as an instance argument.
pub mod Plain
pub mod Instance
use mathlib.Core.Path.{◌≡◌}
use mathlib.Core.Bool.{Bool, true, false, ◌||◌}
use mathlib.Core.Option.{Option, none, some}
use mathlib.Core.List.{List, [], ◌∷◌, ◌++◌}
use Prim.Native.Nat.{ℕ}
use stupid_kv.Base.Tests.{if◌then◌else◌}
use stupid_kv.Base.Lists.{length, any}
use stupid_kv.Base.Order.{Ord, Bytes, bytes_ord, eqb}
use stupid_kv.Base.Bincode.{Codec}
use stupid_kv.Base.BTreeMap.{BTreeMap, IsAscending}
use stupid_kv.Base.BTreeMap

pub record Crates : Type 1 where
  -- an ordered map; `iter` lists the entries in the order of their keys
  pub SkipMap : Type 0 → Type 0 → Type 0
  pub empty : (K V : Type 0) → SkipMap K V
  pub get : (K V : Type 0) → Ord K → SkipMap K V → K → Option V
  pub insert : (K V : Type 0) → Ord K → SkipMap K V → K → V → SkipMap K V
  pub remove : (K V : Type 0) → Ord K → SkipMap K V → K → SkipMap K V
  pub iter : (K V : Type 0) → Ord K → SkipMap K V → BTreeMap K V
  pub get-empty : (K V : Type 0) (o : Ord K) (k : K) → get K V o (empty K V) k ≡ none
  pub get-insert :
      (K V : Type 0) (o : Ord K) (m : SkipMap K V) (k : K) (v : V) (j : K)
      → get K V o (insert K V o m k v) j ≡ (if eqb ⦃o = o⦄ j k then some v else get K V o m j)
  pub get-remove :
      (K V : Type 0) (o : Ord K) (m : SkipMap K V) (k j : K)
      → get K V o (remove K V o m k) j ≡ (if eqb ⦃o = o⦄ j k then none else get K V o m j)
  pub get-iter :
      (K V : Type 0) (o : Ord K) (m : SkipMap K V) (k : K)
      → BTreeMap.get ⦃o = o⦄ k (iter K V o m) ≡ get K V o m k
  pub iter-IsAscending :
      (K V : Type 0) (o : Ord K) (m : SkipMap K V) → IsAscending ⦃o = o⦄ (iter K V o m)
  -- a set of keys; `members` lists them in some order
  pub HashSet : Type 0
  pub no_keys : HashSet
  pub add_key : HashSet → Bytes → HashSet
  pub contains : HashSet → Bytes → Bool
  pub members : HashSet → List Bytes
  pub contains-no_keys : (k : Bytes) → contains no_keys k ≡ false
  pub contains-add_key :
      (s : HashSet) (k j : Bytes) → contains (add_key s k) j ≡ (eqb j k || contains s j)
  pub contains-members : (s : HashSet) (k : Bytes) → contains s k ≡ any (eqb k) (members s)
  -- first in, first out; the bounded one refuses a `push` when it is full
  pub ArrayQueue : Type 0 → Type 0
  pub array_queue : (A : Type 0) → ℕ → ArrayQueue A
  pub try_push : (A : Type 0) → ArrayQueue A → A → Option (ArrayQueue A)
  pub try_pop : (A : Type 0) → ArrayQueue A → Option (A × ArrayQueue A)
  pub SegQueue : Type 0 → Type 0
  pub seg_queue : (A : Type 0) → SegQueue A
  pub push : (A : Type 0) → SegQueue A → A → SegQueue A
  pub pop : (A : Type 0) → SegQueue A → Option (A × SegQueue A)
  pub queued : (A : Type 0) → SegQueue A → List A
  pub queued-push :
      (A : Type 0) (q : SegQueue A) (a : A) → queued A (push A q a) ≡ queued A q ++ a ∷ []
  pub pop_none : (A : Type 0) (q : SegQueue A) → queued A q ≡ [] → pop A q ≡ none
  pub pop_some :
      (A : Type 0) (q : SegQueue A) (a : A) (rest : List A)
      → queued A q ≡ a ∷ rest
      → (r : SegQueue A) × (pop A q ≡ some (a, r)) × (queued A r ≡ rest)
  -- LZ4 frames: what the encoder has written after a `flush`; the decoder, `none` where it refuses
  -- the frame, else the bytes that can be read and whether they end without an error
  pub lz4_write : Bytes → Bytes
  pub lz4_read : Bytes → Option (Bytes × Bool)
  pub lz4_read-lz4_write : (xs : Bytes) → lz4_read (lz4_write xs) ≡ some (xs, true)
  pub lz4_magic : (xs : Bytes) → (rest : Bytes) × (lz4_write xs ≡ 4 ∷ 34 ∷ 77 ∷ 24 ∷ rest)
  -- `bincode` on an entry of the log and on an entry of a snapshot
  pub write_codec : Codec (Bytes × ℕ × Option Bytes)
  pub chain_codec : Codec (Bytes × List (ℕ × Option Bytes))
