-- ===== src/Persistence/Recovery.antt =====
-- A start from the files of a database: what `load` brings back.
use stupid_kv.Base.{
  ℕ, ◌≡◌, ◌≢◌, refl, sym, ap, ◌∙◌, true, none, some, List, [], ◌∷◌, Bytes, bytes_ord, nat_ord, take,
  append_nil, ok, Codec, encode_all, IsTorn, encode-nonempty, Crates,
}
use stupid_kv.Base.SkipMap
use stupid_kv.Compression.{
  CompressionMode, plain, write_compressed, detect, read_compressed-write_compressed,
}
use stupid_kv.Versions.{Versions}
use stupid_kv.Db.{Inner, Datastore}
use stupid_kv.Persistence.{LogEntry}
use stupid_kv.Persistence.Files.{
  ChainEntry, load_file, load, replay_aol, load_chain, load_write, snapshot_entries,
  snapshot_contents,
}
use stupid_kv.Persistence.Replay.{
  restored, stored-restored, restored-IsBounded, Commits, store_commits, log_of, IsLog, Agrees,
  replay-Agrees,
}
use stupid_kv.Persistence.Decode.{
  fold_left, longer_key, IsWhole, take-encode_all, load_file-encode_all,
}
use stupid_kv.Tx.Commit.Store.{IsBounded}

module _ ⦃c : Crates⦄ where
  pub write_full : (a : LogEntry) → Codec.encode c.write_codec a ≢ []
  write_full (k, v, value) =
      encode-nonempty c.write_codec (k, v, value) (0 ∷ k, v, value)
        (λ e. longer_key k (ap (λ (a : LogEntry). a.0) e))

  chain_full : (a : ChainEntry) → Codec.encode c.chain_codec a ≢ []
  chain_full (k, vs) =
      encode-nonempty c.chain_codec (k, vs) (0 ∷ k, vs)
        (λ e. longer_key k (ap (λ (a : ChainEntry). a.0) e))

  write_end : IsTorn c.write_codec []
  write_end =
      (([], 0, none), Codec.encode c.write_codec ([], 0, none), refl, write_full ([], 0, none))

  chain_end : IsTorn c.chain_codec []
  chain_end = (([], []), Codec.encode c.chain_codec ([], []), refl, chain_full ([], []))

  abbrev pub empty_store : Datastore
  empty_store = c.empty Bytes Versions

  -- The bytes of the snapshot of a store before they are compressed.
  abbrev pub snapshot_bytes : Datastore → Bytes
  snapshot_bytes ds = encode_all c.chain_codec (snapshot_entries (SkipMap.iter ds))

  module _ (mode : CompressionMode) (ds : Datastore)
      (readable : mode ≡ plain → detect (snapshot_bytes ds) ≡ plain) where
    load_snapshot :
        load_file c.chain_codec load_chain (some (snapshot_contents mode ds)) empty_store
        ≡ (restored ds, ok tt)
    unfolding snapshot_contents
    load_snapshot =
        load_file-encode_all c.chain_codec chain_full load_chain [] chain_end
          (snapshot_entries (SkipMap.iter ds)) empty_store (snapshot_contents mode ds)
          (read_compressed-write_compressed mode (snapshot_bytes ds) readable
            ∙ ap (λ x. some (x, true)) (sym (append_nil (snapshot_bytes ds))))

    -- After a snapshot whose file is not taken for an LZ4 frame unless it is one, and a log that is
    -- cut off after any number of bytes, as a crash may leave it, and is not taken for one either:
    -- `load` succeeds, and brings back the store of the snapshot with exactly those first entries of
    -- the log that are whole in these bytes.
    pub load_prefix :
        (es : List LogEntry) (n : ℕ)
        → detect (take n (encode_all c.write_codec es)) ≡ plain
        → (k : ℕ) × IsWhole c.write_codec write_full es n k
          × (load none
                (some (snapshot_contents mode ds))
                none
                (some (take n (encode_all c.write_codec es)))
                empty_store
              ≡ (fold_left load_write (restored ds) (take k es), ok tt))
    unfolding load replay_aol write_compressed
    load_prefix es n legible =
        let (k, torn, cut, whole, same) =
          take-encode_all c.write_codec write_full es n ([], 0, none) in
        (
          k,
          whole,
          ap (replay_aol none (some (take n (encode_all c.write_codec es)))) load_snapshot
              ∙ (load_file-encode_all c.write_codec write_full load_write torn cut (take k es)
                  (restored ds) (take n (encode_all c.write_codec es))
                  (read_compressed-write_compressed plain (take n (encode_all c.write_codec es))
                      (λ _. legible)
                    ∙ ap (λ x. some (x, true)) same)),
        )

  module _ (mode : CompressionMode) (b : ℕ) (db : Inner) (cs : Commits)
      (readable : mode ≡ plain → detect (snapshot_bytes db.datastore) ≡ plain)
      (legible : detect (encode_all c.write_codec (log_of cs)) ≡ plain) where
    -- What `load` of the two files makes of an empty store.
    pub load_log :
        load none
          (some (snapshot_contents mode db.datastore))
          none
          (some (encode_all c.write_codec (log_of cs)))
          empty_store
        ≡ (fold_left load_write (restored db.datastore) (log_of cs), ok tt)
    unfolding load replay_aol write_compressed
    load_log =
        let log = encode_all c.write_codec (log_of cs) in
        ap (replay_aol none (some log)) (load_snapshot mode db.datastore readable)
        ∙ (load_file-encode_all c.write_codec write_full load_write [] write_end (log_of cs)
            (restored db.datastore) log
            (read_compressed-write_compressed plain log (λ _. legible)
              ∙ ap (λ x. some (x, true)) (sym (append_nil log))))

    -- A snapshot of a sound store, and the log of the commits since then, in the order of their
    -- versions, neither of them taken for an LZ4 frame that it is not: `load` of the two files into
    -- an empty store succeeds, and every reader, of every key and at every snapshot, finds there
    -- what it finds in the store that has made these commits and never went down.
    pub load-store_commits :
        IsBounded b db.datastore
        → IsLog b cs
        → (ds : Datastore) × (load none
              (some (snapshot_contents mode db.datastore))
              none
              (some (encode_all c.write_codec (log_of cs)))
              empty_store
            ≡ (ds, ok tt))
          × Agrees ds (store_commits db cs).datastore
    load-store_commits v l = (
      fold_left load_write (restored db.datastore) (log_of cs),
      load_log,
      replay-Agrees b cs (restored db.datastore) db l (restored-IsBounded b db.datastore v) v
          (λ j q. stored-restored b db.datastore j q v),
    )
