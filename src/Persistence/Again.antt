-- ===== src/Persistence/Again.antt =====
-- A log that is replayed over a snapshot which already holds its first commits, as a crash after
-- `snapshot` has put the file in its place and before `truncate` leaves it.
use stupid_kv.Base.{
  ℕ, ◌≤◌, ◌≡◌, ◌⊎◌, refl, sym, ap, subst, ◌∙◌, true, false, Option, none, some, List, [], ◌∷◌, ◌++◌,
  Bytes, bytes_ord, nat_ord, arith, eqb, eqb_iff, Bool-cases, ok, encode_all, Crates, Option-cases,
  inl, inr, leb,
}
use stupid_kv.Base.SkipMap
use stupid_kv.Compression.{CompressionMode, plain, detect}
use stupid_kv.Versions.{Versions, Version, push, from}
use stupid_kv.Versions.Bounds.{fetch_version-push_newest, fetch_version-from}
use stupid_kv.Db.{Inner, Datastore}
use stupid_kv.Db.Chains.{chain_read, stored, stored-insert, ChainIsSorted, ChainAtMost}
use stupid_kv.Persistence.{LogEntry}
use stupid_kv.Persistence.Files.{load, load_write, snapshot_contents}
use stupid_kv.Persistence.Decode.{fold_left}
use stupid_kv.Persistence.Replay.{
  restored, stored-restored, restored-IsBounded, Commits, store_commits, log_of, IsLog,
  last_version, replay-Agrees,
}
use stupid_kv.Persistence.Recovery.{empty_store, snapshot_bytes, load_log}
use stupid_kv.Tx.Commit.Store.{IsBounded}
use stupid_kv.Persistence.Entries.{
  Misses, WritesBelow, IsRising, Misses-WritesBelow, Misses-append, WritesBelow-append,
  IsRising-top, log_of-IsRising, log_of-append, IsLog-append,
}
use stupid_kv.Persistence.Heights.{
  Under, load_write-Under, store_commits-Under, store_commits-IsBounded, IsBounded-Under,
  restored-Under,
}

module _ ⦃c : Crates⦄ where
  -- An entry of another key leaves the chain as it is.
  load_write-other :
      (j : Bytes) (ds : Datastore) (k : Bytes) (n : ℕ) (y : Option Bytes)
      → eqb j k ≡ false
      → SkipMap.get (load_write ds (k, n, y)) j ≡ SkipMap.get ds j
  unfolding load_write
  load_write-other j ds k n y other = elim (Option-cases (SkipMap.get ds k)) [
    | inl e ↦
        rw (e, load_write)
          (rw (SkipMap.get-insert ds k (from (record { version = n; value = y })) j, other) refl)
    | inr (vs, e) ↦
        rw (e, load_write)
          (rw (SkipMap.get-insert ds k (push vs (record { version = n; value = y })) j, other) refl)
  ]

  replay-Misses :
      (j : Bytes) (es : List LogEntry) (ds : Datastore)
      → Misses j es
      → SkipMap.get (fold_left load_write ds es) j ≡ SkipMap.get ds j
  replay-Misses j [] ds m = refl
  replay-Misses j ((k, n, y) ∷ es) ds m =
      replay-Misses j es (load_write ds (k, n, y)) m.1 ∙ load_write-other j ds k n y m.0

  stored-load_write :
      (j : Bytes) (ds : Datastore) (k : Bytes) (n : ℕ) (y : Option Bytes) (q : ℕ)
      → Under j n ds
      → eqb j k ≡ true
      → n ≤ q
      → stored (load_write ds (k, n, y)) j q ≡ y
  unfolding load_write
  stored-load_write j ds k n y q u here h =
      let w : Version = record { version = n; value = y } in
      let seen : leb n q ≡ true = ground arith in
      elim (Option-cases (SkipMap.get ds k)) [
        | inl e ↦
            rw (e, load_write)
              (rw (stored-insert ds k (from w) j q, here, fetch_version-from w q, seen) refl)
        | inr (vs, e) ↦
            let chain : Under k n ds = subst (λ i. Under i n ds) ((eqb_iff j k).0 here) u in
            rw (e, load_write)
              (rw
                (
                  stored-insert ds k (push vs w) j q,
                  here,
                  fetch_version-push_newest vs w q (subst ChainIsSorted e chain.0)
                      (subst (ChainAtMost n) e chain.1),
                  seen,
                )
                refl)
      ]

  -- The last write of a key in the log, which every store whose chain is not ahead of it shows
  -- after the replay.
  abbrev Settles : Bytes → ℕ → ℕ → List LogEntry → Type 0
  Settles j b t es =
      (v : ℕ) × (x : Option Bytes) × (b ≤ v)
      × (v ≤ t)
      × WritesBelow j v es
      × ((ds : Datastore) (q : ℕ)
          → Under j v ds
          → v ≤ q
          → stored (fold_left load_write ds es) j q ≡ x)

  replay-Settles :
      (j : Bytes) (b t : ℕ) (es : List LogEntry) → IsRising b t es → Misses j es ⊎ Settles j b t es
  unfolding stored
  replay-Settles j b t [] r = inl tt
  replay-Settles j b t ((k, n, y) ∷ es) r = elim (replay-Settles j n t es r.1) [
    | inr (v, x, from_n, to_t, below, shows) ↦ inr (
      v,
      x,
      omega (arith, r.0, from_n),
      to_t,
      (λ _. from_n, below),
      λ ds q u h.
          shows (load_write ds (k, n, y)) q (load_write-Under j v ds k n y (λ _. from_n) u) h,
    )
    | inl misses ↦ elim (Bool-cases (eqb j k)) [
      | inl here ↦ inr (
        n,
        y,
        r.0,
        IsRising-top n t es r.1,
        (λ _. omega arith, Misses-WritesBelow j n es misses),
        λ ds q u h.
            ap (λ o. chain_read o q) (replay-Misses j es (load_write ds (k, n, y)) misses)
            ∙ stored-load_write j ds k n y q u here h,
      )
      | inr other ↦ inl (other, misses)
    ]
  ]

  module _ (b : ℕ) (db : Inner) (cs more : Commits) (w : IsBounded b db.datastore)
      (l : IsLog b (cs ++ more)) where
    abbrev held : Datastore
    held = (store_commits db cs).datastore

    abbrev whole : List LogEntry
    whole = log_of (cs ++ more)

    held-IsBounded : IsBounded (last_version b cs) held
    held-IsBounded = store_commits-IsBounded b cs db (IsLog-append b cs more l) w

    -- Where the log has no write of the key, neither the held commits nor the replay have one.
    unwritten :
        (j : Bytes) (q : ℕ)
        → Misses j whole
        → stored (fold_left load_write (restored held) whole) j q
          ≡ stored (fold_left load_write (restored db.datastore) whole) j q
    unfolding stored
    unwritten j q misses =
        let first : Misses j (log_of cs) =
          Misses-append j (log_of cs) (log_of more)
            (subst (Misses j) (log_of-append cs more) misses) in
        let at = λ (o : Option Versions). chain_read o q in
        ap at (replay-Misses j whole (restored held) misses)
        ∙ stored-restored (last_version b cs) held j q held-IsBounded
        ∙ sym (
            replay-Agrees b cs (restored db.datastore) db (IsLog-append b cs more l)
              (restored-IsBounded b db.datastore w) w (λ i p. stored-restored b db.datastore i p w)
              j q)
        ∙ ap at (replay-Misses j (log_of cs) (restored db.datastore) first)
        ∙ sym (ap at (replay-Misses j whole (restored db.datastore) misses))

    replay_again :
        (j : Bytes) (q : ℕ)
        → last_version b (cs ++ more) ≤ q
        → stored (fold_left load_write (restored held) whole) j q
          ≡ stored (fold_left load_write (restored db.datastore) whole) j q
    replay_again j q h = elim (replay-Settles j b q whole (log_of-IsRising b q (cs ++ more) l h)) [
      | inl misses ↦ unwritten j q misses
      | inr (v, x, from_b, to_q, below, shows) ↦
          let u = IsBounded-Under j b v db.datastore from_b w in
          let first : WritesBelow j v (log_of cs) =
            WritesBelow-append j v (log_of cs) (log_of more)
              (subst (WritesBelow j v) (log_of-append cs more) below) in
          shows (restored held) q
            (restored-Under j v held
              (store_commits-Under j v b cs db (IsLog-append b cs more l) first w u))
            to_q
          ∙ sym (shows (restored db.datastore) q (restored-Under j v db.datastore u) to_q)
    ]

    -- A snapshot of a store that has made the first commits of the log, which the log has not been
    -- cut for, as after a crash between the two: `load` of the snapshot and of the whole log, neither
    -- of them taken for an LZ4 frame that it is not, succeeds, and every reader at the last version
    -- or later finds at every key what it finds in the store that has made each commit once.
    pub load_again :
        (mode : CompressionMode)
        → (mode ≡ plain → detect (snapshot_bytes held) ≡ plain)
        → detect (encode_all c.write_codec whole) ≡ plain
        → (ds : Datastore) × (load none
              (some (snapshot_contents mode held))
              none
              (some (encode_all c.write_codec whole))
              empty_store
            ≡ (ds, ok tt))
          × ((j : Bytes) (q : ℕ)
              → last_version b (cs ++ more) ≤ q
              → stored ds j q ≡ stored (store_commits db (cs ++ more)).datastore j q)
    load_again mode readable legible = (
      fold_left load_write (restored held) whole,
      load_log mode (last_version b cs) (store_commits db cs) (cs ++ more) readable legible,
      λ j q h.
          replay_again j q h
          ∙ replay-Agrees b (cs ++ more) (restored db.datastore) db l
              (restored-IsBounded b db.datastore w) w (λ i p. stored-restored b db.datastore i p w)
              j q,
    )
