-- ===== src/Tx/Commit/Entry.antt =====
-- The entry that a commit queues is sound: its filter and its key range cover its keys.
use stupid_kv.Base.{
  ℕ, ◌≡◌, true, false, List, [], ◌∷◌, Bytes, bytes_ord, arith, last, eqb, eqb_iff, eqb_refl,
  Bool-cases, inl, inr, any, Ordering, cmp_bytes,
}
use stupid_kv.Base.Order.{bytes_trans, bytes_gt, bytes_refl}
use stupid_kv.Base.BTreeMap.{keys, IsAscending}
use stupid_kv.Bloom
use stupid_kv.Bloom.Contains.{elem, may_contain-insert_all, new-IsFilter}
use stupid_kv.Queue.{Writeset, less}
use stupid_kv.Queue.Keys.{KeysAbove, KeysAscending, keys-Ascending}
use stupid_kv.Queue.Disjoint.{IsCommit}
use stupid_kv.Tx.Commit.{commit_entry, key_or_default, first_key}

below_KeysAbove :
    (a k : Bytes) (l : List Bytes) → KeysAbove a l → elem k l ≡ true → cmp_bytes a k ≡ Ordering.lt
unfolding any
below_KeysAbove a k [] h m = cc
below_KeysAbove a k (b ∷ bs) h m = ground (arith, eqb_iff k b, below_KeysAbove a k bs h.1)

first-le :
    (l : List Bytes) (k : Bytes)
    → KeysAscending l
    → elem k l ≡ true
    → less k (key_or_default (first_key l)) ≡ false
unfolding any
first-le [] k s m = cc
first-le (a ∷ l) k s m =
    ground (arith, eqb_iff k a, bytes_refl k, below_KeysAbove a k l s.0, bytes_gt a k)

last-ge :
    (l : List Bytes) (k : Bytes)
    → KeysAscending l
    → elem k l ≡ true
    → less (key_or_default (last l)) k ≡ false
unfolding any
last-ge [] k s m = cc
last-ge (a ∷ []) k s m = ground (arith, eqb_iff k a, bytes_refl k)
last-ge (a ∷ b ∷ l) k s m = elim (Bool-cases (eqb k a)) [
  | inl e ↦ rw ((eqb_iff k a).0 e) (
      ground
        (arith, last-ge (b ∷ l) b s.1, eqb_refl b, bytes_trans (key_or_default (last (b ∷ l))) a b))
  | inr other ↦ last-ge (b ∷ l) k s.1 (ground arith)
]

-- The entry that a commit makes of an ascending write set has a filter that finds all its keys,
-- and a key range that holds them.
pub commit_entry-IsCommit : (w : Writeset) (id : ℕ) → IsAscending w → IsCommit (commit_entry w id)
unfolding commit_entry
commit_entry-IsCommit w id s = record {
  ascending = s;
  in_bloom = λ k m. may_contain-insert_all (keys w) k Bloom.new new-IsFilter m;
  at_most = λ k m. last-ge (keys w) k (keys-Ascending w s) m;
  at_least = λ k m. first-le (keys w) k (keys-Ascending w s) m;
}
