-- ===== src/Tx/Reads.antt =====
-- What a transaction reads: `get`, `exists` and the two lookups below them.
use stupid_kv.Base.{
  ℕ, ◌+◌, ◌^◌, ◌<◌, ◌≡◌, refl, sym, subst, ◌∙◌, true, false, ◌&&◌, ◌||◌, Option, none, [], ◌∷◌,
  Bytes, bytes_ord, nat_ord, arith, eqb, eqb_iff, eqb_refl, ok, Crates, Option-cases, Bool-cases,
  inl, inr,
}
use stupid_kv.Base.BTreeMap.{BTreeMap}
use stupid_kv.Base.BTreeMap
use stupid_kv.Base.SkipMap
use stupid_kv.Versions.{is_some}
use stupid_kv.Versions.Read.{exists_version-fetch_version}
use stupid_kv.Bloom.{BloomFilter, may_contain, is_empty}
use stupid_kv.Bloom
use stupid_kv.Bloom.Contains.{
  IsFilter, may_contain-insert_self, may_contain-insert, insert-IsFilter,
}
use stupid_kv.Queue.Disjoint.{IsReadset}
use stupid_kv.Db.{Inner}
use stupid_kv.Db.Chains.{stored}
use stupid_kv.Tx.{
  TransactionInner, Error, up_to, first_write, merging, fetch_in_datastore, exists_in_datastore,
  track, is_serializable,
}
use stupid_kv.Tx

nothing_there : {V : Type 0} (es : BTreeMap ℕ V) → ((v : ℕ) → BTreeMap.get v es ≡ none) → es ≡ []
unfolding BTreeMap.get
nothing_there [] h = refl
nothing_there ((v, m) ∷ es) h = absurd (ground (arith, h v, eqb_refl v))

module _ ⦃c : Crates⦄ where
  merging-quiet :
      (db : Inner) (k : Bytes) (q : ℕ)
      → ((v : ℕ) → SkipMap.get db.transaction_merge_queue v ≡ none)
      → merging db k q ≡ none
  unfolding merging up_to first_write
  merging-quiet db k q quiet =
      rw
        (
          nothing_there (SkipMap.iter db.transaction_merge_queue)
              (λ v. SkipMap.get-iter db.transaction_merge_queue v ∙ quiet v),
          merging,
        )
        refl

  -- With no merge under way, `fetch_in_datastore` reads the version chain alone.
  pub fetch_in_datastore-stored :
      (db : Inner) (k : Bytes) (q : ℕ)
      → ((v : ℕ) → SkipMap.get db.transaction_merge_queue v ≡ none)
      → fetch_in_datastore db k q ≡ stored db.datastore k q
  unfolding fetch_in_datastore stored
  fetch_in_datastore-stored db k q quiet = elim (Option-cases (SkipMap.get db.datastore k)) [
    | inl absent ↦ ground (arith, merging-quiet db k q quiet, absent)
    | inr (vs, at) ↦ ground (arith, merging-quiet db k q quiet, at)
  ]

  -- At every version the lookup `exists_in_datastore` holds exactly where `fetch_in_datastore`
  -- returns a value, with merges under way or not.
  pub exists_in_datastore-fetch_in_datastore :
      (db : Inner) (k : Bytes) (q : ℕ)
      → exists_in_datastore db k q ≡ is_some (fetch_in_datastore db k q)
  unfolding exists_in_datastore fetch_in_datastore
  exists_in_datastore-fetch_in_datastore db k q = elim (Option-cases (merging db k q)) [
    | inl e ↦ elim (Option-cases (SkipMap.get db.datastore k)) [
      | inl absent ↦ ground (arith, e, absent)
      | inr (vs, at) ↦ ground (arith, e, at, exists_version-fetch_version vs q)
    ]
    | inr (w, e) ↦ rw (e, exists_in_datastore, fetch_in_datastore) refl
  ]

  -- Where `get` returns, `exists` returns too: it answers that the key is there exactly where
  -- `get` finds a value, or where a writing transaction has the key in its write set, even as a
  -- deletion.
  pub exists-get :
      (db : Inner) (tx : TransactionInner) (k : Bytes) (value : Option Bytes)
      → (Tx.get db tx k).0 ≡ ok value
      → (Tx.exists db tx k).0
        ≡ ok (is_some value || (tx.write && is_some (BTreeMap.get k tx.writeset)))
  unfolding Tx.get Tx.exists
  exists-get db tx k value h =
      ground (arith, h, exists_in_datastore-fetch_in_datastore db k tx.version)

  -- The filter of the read set stays sound, and a read of the store is recorded.
  pub record Tracked (tx : TransactionInner) (k : Bytes) (out : TransactionInner) : Type 0 where
    pub filter : IsFilter out.readset_bloom
    pub readset : IsReadset out.readset out.readset_bloom
    pub recorded : is_serializable tx.mode ≡ true → c.contains out.readset k ≡ true
    pub older : (j : Bytes) → c.contains tx.readset j ≡ true → c.contains out.readset j ≡ true

  not_empty :
      (k : Bytes) (bloom : BloomFilter)
      → bloom.count + 1 < 2 ^ 64
      → is_empty (Bloom.insert k bloom) ≡ false
  unfolding is_empty Bloom.insert
  not_empty k bloom room = ground arith

  pub add_key-IsReadset :
      (s : c.HashSet) (bloom : BloomFilter) (k : Bytes)
      → IsFilter bloom
      → IsReadset s bloom
      → bloom.count + 1 < 2 ^ 64
      → IsReadset (c.add_key s k) (Bloom.insert k bloom)
  add_key-IsReadset s bloom k f r room = record {
    reads_in_bloom = λ j h. elim (Bool-cases (eqb j k)) [
      | inl here ↦ rw ((eqb_iff j k).0 here) (may_contain-insert_self k bloom f)
      | inr other ↦
          may_contain-insert j k bloom f
            (r.reads_in_bloom j (ground (arith, h, other, c.contains-add_key s k j)))
    ];
    empty_bloom = λ e. cc (not_empty k bloom room);
  }

  pub track-Tracked :
      (tx : TransactionInner) (k : Bytes)
      → IsFilter tx.readset_bloom
      → IsReadset tx.readset tx.readset_bloom
      → tx.readset_bloom.count + 1 < 2 ^ 64
      → Tracked tx k (track tx k)
  unfolding track
  track-Tracked tx k f r room = elim (Bool-cases (is_serializable tx.mode)) [
    | inr off ↦ rw off (record { filter = f; readset = r; recorded = λ s. cc; older = λ j h. h })
    | inl on ↦ elim (Bool-cases (c.contains tx.readset k)) [
      | inl there ↦
          rw (on, there)
            (record { filter = f; readset = r; recorded = λ _. there; older = λ j h. h })
      | inr absent ↦
          rw (on, absent)
            (record {
              filter = insert-IsFilter k tx.readset_bloom f;
              readset = add_key-IsReadset tx.readset tx.readset_bloom k f r room;
              recorded = λ _. ground (arith, c.contains-add_key tx.readset k k, eqb_refl k);
              older = λ j h. ground (arith, h, c.contains-add_key tx.readset k j);
            })
    ]
  ]

  -- A `get` of a key that an open, writing transaction has not written keeps the read filter
  -- sound and every recorded key, as long as the filter's count has room below 2^64; and under
  -- serializable isolation the key is recorded.
  pub get-Tracked :
      (db : Inner) (tx : TransactionInner) (k : Bytes)
      → IsFilter tx.readset_bloom
      → IsReadset tx.readset tx.readset_bloom
      → tx.readset_bloom.count + 1 < 2 ^ 64
      → tx.write ≡ true
      → BTreeMap.get k tx.writeset ≡ none
      → tx.done ≡ false
      → Tracked tx k (Tx.get db tx k).1
  unfolding Tx.get
  get-Tracked db tx k f r room w missing active =
      let same : (Tx.get db tx k).1 ≡ track tx k = ground (arith, active, w, missing) in
      subst (Tracked tx k) (sym same) (track-Tracked tx k f r room)
