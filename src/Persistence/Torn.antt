-- ===== src/Persistence/Torn.antt =====
-- A start from a snapshot and a log that ends anywhere: what the readers find.
use stupid_kv.Base.{
  ℕ, zero, suc, ◌≡◌, refl, ap, ◌∙◌, Option, none, some, List, [], ◌∷◌, Bytes, bytes_ord, eqb, leb,
  ◌&&◌, if◌then◌else◌, take, ok, encode_all, Crates,
}
use stupid_kv.Compression.{CompressionMode, plain, detect}
use stupid_kv.Db.{Datastore}
use stupid_kv.Db.Chains.{stored}
use stupid_kv.Persistence.{LogEntry}
use stupid_kv.Persistence.Files.{load, load_write, snapshot_contents}
use stupid_kv.Persistence.Decode.{fold_left, IsWhole}
use stupid_kv.Persistence.Replay.{restored, stored-restored, restored-IsBounded, load_write-Writes}
use stupid_kv.Persistence.Recovery.{empty_store, snapshot_bytes, write_full, load_prefix}
use stupid_kv.Persistence.Entries.{IsRising, IsRising-top}
use stupid_kv.Tx.Commit.Store.{IsBounded, IsBounded-mono}

-- What a reader at `q` finds of a key after the entries: the value, or the deletion, of the last of
-- them that is about this key and not newer than `q`, and `old` where there is none.
abbrev pub last_seen : List LogEntry → Bytes → ℕ → Option Bytes → Option Bytes
last_seen [] j q old = old
last_seen ((k, version, value) ∷ es) j q old =
    last_seen es j q (if eqb j k && leb version q then value else old)

take-IsRising : (b t n : ℕ) (es : List LogEntry) → IsRising b t es → IsRising b t (take n es)
take-IsRising b t zero es r = IsRising-top b t es r
take-IsRising b t (suc n) [] r = r
take-IsRising b t (suc n) ((k, v, y) ∷ es) r = (r.0, take-IsRising v t n es r.1)

module _ ⦃c : Crates⦄ where
  stored-replay :
      (b t : ℕ) (es : List LogEntry) (ds : Datastore) (j : Bytes) (q : ℕ)
      → IsRising b t es
      → IsBounded b ds
      → stored (fold_left load_write ds es) j q ≡ last_seen es j q (stored ds j q)
  stored-replay b t [] ds j q r w = refl
  stored-replay b t ((k, v, y) ∷ es) ds j q r w =
      let one = load_write-Writes v k y ds (IsBounded-mono b v ds r.0 w) in
      stored-replay v t es (load_write ds (k, v, y)) j q r.1 one.bounded
      ∙ ap (last_seen es j q) (one.reads j q)

  -- After a snapshot of a sound store, and a log whose versions do not fall below those of the store
  -- or below each other, which is cut off after any number of bytes, as a crash may leave it, neither
  -- of the two files taken for an LZ4 frame that it is not: `load` succeeds, and a reader of any key,
  -- at any snapshot, finds the value or the deletion of the last entry for it, not newer than the
  -- snapshot, among exactly those first entries that are whole in the bytes of the log, and where
  -- there is none what it found in the store.
  pub load_cut :
      (mode : CompressionMode) (ds : Datastore) (b t : ℕ)
      → (mode ≡ plain → detect (snapshot_bytes ds) ≡ plain)
      → IsBounded b ds
      → (es : List LogEntry) (n : ℕ) → IsRising b t es
      → detect (take n (encode_all c.write_codec es)) ≡ plain
      → (k : ℕ) × (out : Datastore) × IsWhole c.write_codec write_full es n k
        × (load none
              (some (snapshot_contents mode ds))
              none
              (some (take n (encode_all c.write_codec es)))
              empty_store
            ≡ (out, ok tt))
        × ((j : Bytes) (q : ℕ) → stored out j q ≡ last_seen (take k es) j q (stored ds j q))
  load_cut mode ds b t readable w es n rising legible =
      let (k, whole, loaded) = load_prefix mode ds readable es n legible in
      (
        k,
        fold_left load_write (restored ds) (take k es),
        whole,
        loaded,
        λ j q.
            stored-replay b t (take k es) (restored ds) j q (take-IsRising b t k es rising)
              (restored-IsBounded b ds w)
            ∙ ap (last_seen (take k es) j q) (stored-restored b ds j q w),
      )
