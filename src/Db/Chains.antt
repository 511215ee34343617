-- ===== src/Db/Chains.antt =====
-- The store as its readers see it, and the collection of one key.
use stupid_kv.Base.{
  ℕ, zero, suc, ◌≤◌, ◌≡◌, refl, subst, ap, ◌∙◌, true, Option, none, some, List, [], ◌∷◌, Bytes,
  bytes_ord, arith, nat_ord, eqb, eqb_iff, ◌==◌, if◌then◌else◌, length, any, Crates, Option-cases,
  Bool-cases, inl, inr,
}
use stupid_kv.Base.SkipMap
use stupid_kv.Versions.{Versions, gc_older_versions, fetch_version}
use stupid_kv.Versions.Order.{IsSorted}
use stupid_kv.Versions.Gc.{gc-IsSorted, fetch_version-gc, gc_count}
use stupid_kv.Versions.Bounds.{AtMost, AtMost-gc}
use stupid_kv.Versions.Read.{fetch_version-nil}
use stupid_kv.Db.{Datastore, gc_entry, gc_key, gc_keys, gc_dirty}

abbrev pub chain_read : Option Versions → ℕ → Option Bytes
chain_read none q = none
chain_read (some vs) q = fetch_version vs q

abbrev pub ChainIsSorted : Option Versions → Type 0
ChainIsSorted none = Unit {0}
ChainIsSorted (some vs) = IsSorted vs

abbrev pub ChainAtMost : ℕ → Option Versions → Type 0
ChainAtMost b none = Unit {0}
ChainAtMost b (some vs) = AtMost b vs

module _ ⦃c : Crates⦄ where
  abbrev pub AllAtMost : ℕ → Datastore → Type 0
  AllAtMost b ds = (k : Bytes) → ChainAtMost b (SkipMap.get ds k)

  -- The value of a key that a reader with the snapshot `q` finds in the store.
  unfoldable pub stored : Datastore → Bytes → ℕ → Option Bytes
  stored ds k q = chain_read (SkipMap.get ds k) q

  -- Every chain of the store is sorted.
  pub record IsStore (ds : Datastore) : Type 0 where
    pub chains : (k : Bytes) → ChainIsSorted (SkipMap.get ds k)

  -- What a collection at the watermark `ts` promises of the store after it.
  pub record Collected (ts : ℕ) (ds es : Datastore) : Type 0 where
    pub at_most : (b : ℕ) → AllAtMost b ds → AllAtMost b es
    pub sorted : IsStore es
    pub reads : (k : Bytes) (q : ℕ) → ts ≤ q → stored es k q ≡ stored ds k q

  -- Writes and removals of whole chains.
  module _ (ds : Datastore) (k : Bytes) where
    pub stored-insert :
        (vs : Versions) (j : Bytes) (q : ℕ)
        → stored (SkipMap.insert ds k vs) j q
          ≡ (if eqb j k then fetch_version vs q else stored ds j q)
    unfolding stored
    stored-insert vs j q = rw (SkipMap.get-insert ds k vs j) (ground arith)

    pub stored-remove :
        (j : Bytes) (q : ℕ)
        → stored (SkipMap.remove ds k) j q ≡ (if eqb j k then none else stored ds j q)
    unfolding stored
    stored-remove j q = rw (SkipMap.get-remove ds k j) (ground arith)

    pub insert-IsStore :
        (vs : Versions) → IsSorted vs → IsStore ds → IsStore (SkipMap.insert ds k vs)
    insert-IsStore vs s v = record {
      chains = λ j. rw (SkipMap.get-insert ds k vs j) (elim (Bool-cases (eqb j k)) [
        | inl here ↦ rw here s
        | inr other ↦ rw other (v.chains j)
      ]);
    }

    pub insert-AllAtMost :
        (b : ℕ) (vs : Versions)
        → AtMost b vs
        → AllAtMost b ds
        → AllAtMost b (SkipMap.insert ds k vs)
    insert-AllAtMost b vs m all j =
        rw (SkipMap.get-insert ds k vs j)
          (elim (Bool-cases (eqb j k)) [ inl here ↦ rw here m | inr other ↦ rw other (all j) ])

    remove-AllAtMost : (b : ℕ) → AllAtMost b ds → AllAtMost b (SkipMap.remove ds k)
    remove-AllAtMost b all j =
        rw (SkipMap.get-remove ds k j)
          (elim (Bool-cases (eqb j k)) [ inl here ↦ rw here tt | inr other ↦ rw other (all j) ])

    pub remove-IsStore : IsStore ds → IsStore (SkipMap.remove ds k)
    remove-IsStore v = record {
      chains = λ j. rw (SkipMap.get-remove ds k j) (elim (Bool-cases (eqb j k)) [
        | inl here ↦ rw here tt
        | inr other ↦ rw other (v.chains j)
      ]);
    }

    pub stored_at :
        (j : Bytes) (vs : Versions) (q : ℕ)
        → SkipMap.get ds k ≡ some vs
        → eqb j k ≡ true
        → stored ds j q ≡ fetch_version vs q
    unfolding stored
    stored_at j vs q e h = rw ((eqb_iff j k).0 h, e)

  pub Collected-refl : (ts : ℕ) (ds : Datastore) → IsStore ds → Collected ts ds ds
  Collected-refl ts ds v = record { at_most = λ b m. m; sorted = v; reads = λ k q h. refl }

  pub Collected-trans :
      (ts : ℕ) (ds es fs : Datastore) → Collected ts ds es → Collected ts es fs → Collected ts ds fs
  Collected-trans ts ds es fs a b = record {
    at_most = λ n m. b.at_most n (a.at_most n m);
    sorted = b.sorted;
    reads = λ k q h. b.reads k q h ∙ a.reads k q h;
  }

  module _ (ts : ℕ) (ds : Datastore) (k : Bytes) (v : IsStore ds) where
    module _ (vs : Versions) (at : SkipMap.get ds k ≡ some vs) where
      chain-IsSorted : IsSorted vs
      chain-IsSorted = subst ChainIsSorted at (v.chains k)

      insert_kept : Collected ts ds (SkipMap.insert ds k (gc_older_versions vs ts).0)
      insert_kept = record {
        at_most = λ b all.
            insert-AllAtMost ds k b (gc_older_versions vs ts).0
              (AtMost-gc b ts vs (subst (ChainAtMost b) at (all k))) all;
        sorted = insert-IsStore ds k _ (gc-IsSorted vs ts chain-IsSorted) v;
        reads = λ j q h. ground (
          arith,
          stored-insert ds k (gc_older_versions vs ts).0 j q,
          stored_at ds k j vs q at,
          fetch_version-gc vs ts q chain-IsSorted h,
        );
      }

      remove_empty : (gc_older_versions vs ts).0 ≡ [] → Collected ts ds (SkipMap.remove ds k)
      remove_empty e = record {
        at_most = λ b all. remove-AllAtMost ds k b all;
        sorted = remove-IsStore ds k v;
        reads = λ j q h. ground (
          arith,
          stored-remove ds k j q,
          stored_at ds k j vs q at,
          fetch_version-gc vs ts q chain-IsSorted h,
          ap (λ l. fetch_version l q) e,
          fetch_version-nil q,
        );
      }

      gc_entry-Collected : Collected ts ds (gc_entry ts ds k vs)
      unfolding gc_entry
      gc_entry-Collected = elim (Bool-cases ((gc_older_versions vs ts).1 == 0)) [
        | inl none_left ↦ rw none_left (remove_empty (gc_count vs ts none_left))
        | inr some_left ↦ rw some_left insert_kept
      ]

    -- The collection of one key changes no read at the watermark or above.
    pub gc_key-Collected : Collected ts ds (gc_key ts ds k)
    unfolding gc_key
    gc_key-Collected = elim (Option-cases (SkipMap.get ds k)) [
      | inl e ↦ rw (e, gc_key) (Collected-refl ts ds v)
      | inr (vs, e) ↦ rw (e, gc_key) (gc_entry-Collected vs e)
    ]

  pub gc_keys-Collected :
      (ts : ℕ) (ks : List Bytes) (ds : Datastore) → IsStore ds → Collected ts ds (gc_keys ts ks ds)
  unfolding gc_keys
  gc_keys-Collected ts [] ds v = Collected-refl ts ds v
  gc_keys-Collected ts (k ∷ ks) ds v =
      let one = gc_key-Collected ts ds k v in
      Collected-trans ts ds (gc_key ts ds k) (gc_keys ts ks (gc_key ts ds k)) one
        (gc_keys-Collected ts ks (gc_key ts ds k) one.sorted)

  pub gc_dirty-Collected :
      (ts fuel : ℕ) (seen : List Bytes) (queue : c.SegQueue Bytes) (ds : Datastore)
      → IsStore ds
      → Collected ts ds (gc_dirty ts fuel seen queue ds).1
  unfolding gc_dirty
  gc_dirty-Collected ts zero seen queue ds v = Collected-refl ts ds v
  gc_dirty-Collected ts (suc fuel) seen queue ds v = elim (Option-cases (c.pop Bytes queue)) [
    | inl e ↦ rw (e, gc_dirty) (Collected-refl ts ds v)
    | inr ((k, rest), e) ↦
        rw (e, gc_dirty)
          (elim (Bool-cases (any (eqb k) seen)) [
            | inl old ↦ rw old (gc_dirty-Collected ts fuel seen rest ds v)
            | inr new ↦
                let one = gc_key-Collected ts ds k v in
                rw new (
                  Collected-trans ts ds (gc_key ts ds k) _ one
                    (gc_dirty-Collected ts fuel (k ∷ seen) rest (gc_key ts ds k) one.sorted))
          ])
  ]

  -- With one round more than there are keys in it, the loop over the queue of written keys ends
  -- with the queue empty.
  pub gc_dirty_drains :
      (ts : ℕ) (waiting seen : List Bytes) (queue : c.SegQueue Bytes) (ds : Datastore)
      → c.queued Bytes queue ≡ waiting
      → c.pop Bytes (gc_dirty ts (suc (length waiting)) seen queue ds).0 ≡ none
  unfolding gc_dirty
  gc_dirty_drains ts [] seen queue ds e =
      rw (c.pop_none Bytes queue e, gc_dirty) (c.pop_none Bytes queue e)
  gc_dirty_drains ts (k ∷ ks) seen queue ds e =
      let (rest, popped, left) = c.pop_some Bytes queue k ks e in
      rw (popped, gc_dirty)
        (elim (Bool-cases (any (eqb k) seen)) [
          | inl old ↦ rw old (gc_dirty_drains ts ks seen rest ds left)
          | inr new ↦ rw new (gc_dirty_drains ts ks (k ∷ seen) rest (gc_key ts ds k) left)
        ])
