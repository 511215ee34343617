-- ===== src/Tx/Commit/Store.antt =====
-- What a commit writes into the store, as readers see it.
use stupid_kv.Base.{
  ℕ, ◌≤◌, ◌≡◌, refl, ◌∙◌, subst, true, Option, none, some, [], ◌∷◌, Bytes, bytes_ord, arith, eqb,
  eqb_iff, leb, if◌then◌else◌, Crates, Option-cases, Bool-cases, inl, inr, ◌&&◌,
}
use stupid_kv.Base.BTreeMap.{IsAscending, Above, get-Above}
use stupid_kv.Base.BTreeMap
use stupid_kv.Base.SkipMap
use stupid_kv.Versions.{Versions, Version, push, fetch_version}
use stupid_kv.Versions
use stupid_kv.Versions.Order.{IsSorted}
use stupid_kv.Versions.Push.{push-IsSorted}
use stupid_kv.Versions.Bounds.{
  AtMost, AtMost-mono, push-AtMost, from-IsSorted, from-AtMost, fetch_version-from,
  fetch_version-push_newest,
}
use stupid_kv.Queue.{Writeset}
use stupid_kv.Db.{Inner, Datastore}
use stupid_kv.Db.Chains.{
  ChainAtMost, insert-AllAtMost, IsStore, ChainIsSorted, stored, stored_at, stored-insert,
  insert-IsStore,
}
use stupid_kv.Tx.Commit.{store_write, store_writes}

ChainAtMost-mono : (a b : ℕ) (o : Option Versions) → a ≤ b → ChainAtMost a o → ChainAtMost b o
ChainAtMost-mono a b none h m = tt
ChainAtMost-mono a b (some vs) h m = AtMost-mono a b vs h m

module _ ⦃c : Crates⦄ where
  -- A store whose chains are sorted and hold no version above the bound.
  pub record IsBounded (b : ℕ) (ds : Datastore) : Type 0 where
    pub store : IsStore ds
    pub at_most : (k : Bytes) → ChainAtMost b (SkipMap.get ds k)

  pub IsBounded-mono : (a b : ℕ) (ds : Datastore) → a ≤ b → IsBounded a ds → IsBounded b ds
  IsBounded-mono a b ds h v = record {
    store = v.store;
    at_most = λ k. ChainAtMost-mono a b (SkipMap.get ds k) h (v.at_most k);
  }

  pub insert-IsBounded :
      (b : ℕ) (ds : Datastore) (k : Bytes) (vs : Versions)
      → IsSorted vs
      → AtMost b vs
      → IsBounded b ds
      → IsBounded b (SkipMap.insert ds k vs)
  insert-IsBounded b ds k vs s m v = record {
    store = insert-IsStore ds k vs s v.store;
    at_most = insert-AllAtMost ds k b vs m v.at_most;
  }

  pub stored_missing :
      (ds : Datastore) (k j : Bytes) (q : ℕ)
      → SkipMap.get ds k ≡ none
      → eqb j k ≡ true
      → stored ds j q ≡ none
  unfolding stored
  stored_missing ds k j q e h = rw ((eqb_iff j k).0 h, e)

  -- What one write does: the store stays well formed, and the readers at the version or later see
  -- the value at this key.
  pub record Writes (ds : Datastore) (b : ℕ) (k : Bytes) (value : Option Bytes) (es : Datastore)
      : Type 0 where
    pub bounded : IsBounded b es
    pub reads :
        (j : Bytes) (q : ℕ) → stored es j q ≡ (if eqb j k && leb b q then value else stored ds j q)

  module _ (ds : Datastore) (b : ℕ) (k : Bytes) (value : Option Bytes) (v : IsBounded b ds) where
    abbrev pub written : Version
    written = record { version = b; value = value }

    pub write_old :
        (vs : Versions)
        → SkipMap.get ds k ≡ some vs
        → Writes ds b k value (SkipMap.insert ds k (push vs written))
    write_old vs e =
        let s = subst ChainIsSorted e (v.store.chains k) in
        let m = subst (ChainAtMost b) e (v.at_most k) in
        record {
          bounded =
              insert-IsBounded b ds k (push vs written) (push-IsSorted vs written s)
                (push-AtMost b vs written s (omega arith) m) v;
          reads = λ j q. ground (
            arith,
            stored-insert ds k (push vs written) j q,
            stored_at ds k j vs q e,
            fetch_version-push_newest vs written q s m,
          );
        }

    abbrev pub created : Datastore
    created = SkipMap.insert ds k (Versions.from written)

    pub created-IsBounded : IsBounded b created
    created-IsBounded =
        insert-IsBounded b ds k (Versions.from written) (from-IsSorted written)
          (from-AtMost b written (omega arith)) v

    write_new :
        SkipMap.get ds k ≡ none
        → Writes ds b k value (SkipMap.insert created k (push (Versions.from written) written))
    write_new e =
        let s = from-IsSorted written in
        let m = from-AtMost b written (omega arith) in
        record {
          bounded =
              insert-IsBounded b created k (push (Versions.from written) written)
                (push-IsSorted (Versions.from written) written s)
                (push-AtMost b (Versions.from written) written s (omega arith) m) created-IsBounded;
          reads = λ j q. ground (
            arith,
            stored-insert created k (push (Versions.from written) written) j q,
            stored-insert ds k (Versions.from written) j q,
            fetch_version-push_newest (Versions.from written) written q s m,
            fetch_version-from written q,
            stored_missing ds k j q e,
          );
        }

    pub store_write-none :
        SkipMap.get ds k ≡ none
        → store_write ds b k value
          ≡ SkipMap.insert
              (SkipMap.insert ds k (Versions.from written))
              k
              (push (Versions.from written) written)
    unfolding store_write
    store_write-none e = ground arith

    pub store_write-some :
        (vs : Versions)
        → SkipMap.get ds k ≡ some vs
        → store_write ds b k value ≡ SkipMap.insert ds k (push vs written)
    unfolding store_write
    store_write-some vs e = ground arith

    pub store_write-Writes : Writes ds b k value (store_write ds b k value)
    store_write-Writes = elim (Option-cases (SkipMap.get ds k)) [
      | inl e ↦ rw (store_write-none e) (write_new e)
      | inr (vs, e) ↦ rw (store_write-some vs e) (write_old vs e)
    ]

  -- What the loop over a write set does: readers at the version or later see its values, all else
  -- of the database but the queue of the keys to collect stays.
  abbrev pub overlay : Writeset → Bytes → Option Bytes → Option Bytes
  overlay ws j old = elim (BTreeMap.get j ws) [ none ↦ old | some value ↦ value ]

  pub overlay_cons :
      (k : Bytes) (value : Option Bytes) (ws : Writeset) (j : Bytes) (b q : ℕ) (old : Option Bytes)
      → Above k ws
      → (if leb b q
          then overlay ws j (if eqb j k && leb b q then value else old)
          else (if eqb j k && leb b q then value else old))
        ≡ (if leb b q then overlay ((k, value) ∷ ws) j old else old)
  unfolding BTreeMap.get
  overlay_cons k value ws j b q old a = elim (Bool-cases (eqb j k)) [
    | inl here ↦
        let absent : BTreeMap.get j ws ≡ none = rw ((eqb_iff j k).0 here) (get-Above k ws a) in
        rw (here, overlay) (ground (arith, absent))
    | inr other ↦ rw (other, overlay) (ground (arith, other))
  ]

  pub store_writes-IsBounded :
      (b : ℕ) (ws : Writeset) (db : Inner)
      → IsBounded b db.datastore
      → IsBounded b (store_writes db b ws).datastore
  unfolding store_writes
  store_writes-IsBounded b [] db v = v
  store_writes-IsBounded b ((k, value) ∷ ws) db v =
      store_writes-IsBounded b ws _ (store_write-Writes db.datastore b k value v).bounded

  -- On a store whose chains are sorted and hold no version above `b`, after the loop over an
  -- ascending write set with the version `b`: readers at `b` or later see the value or the
  -- deletion of each written key and what they saw before of the others, and readers below `b`
  -- see no change.
  pub stored-store_writes :
      (b : ℕ) (ws : Writeset) (db : Inner) (j : Bytes) (q : ℕ)
      → IsAscending ws
      → IsBounded b db.datastore
      → stored (store_writes db b ws).datastore j q
        ≡ (if leb b q then overlay ws j (stored db.datastore j q) else stored db.datastore j q)
  unfolding store_writes BTreeMap.get
  stored-store_writes b [] db j q s v = ground arith
  stored-store_writes b ((k, value) ∷ ws) db j q s v =
      let one = store_write-Writes db.datastore b k value v in
      stored-store_writes b ws _ j q s.1 one.bounded
      ∙ (rw (one.reads j q) (overlay_cons k value ws j b q (stored db.datastore j q) s.0))

  -- Nothing else changes.
  pub store_writes-frame :
      (b : ℕ) (ws : Writeset) (db : Inner)
      → store_writes db b ws ≡ record db {
        datastore = (store_writes db b ws).datastore;
        gc_dirty_keys = (store_writes db b ws).gc_dirty_keys;
      }
  unfolding store_writes
  store_writes-frame b [] db = refl
  store_writes-frame b ((k, value) ∷ ws) db = store_writes-frame b ws _
