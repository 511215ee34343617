-- ===== src/System/Operations.antt =====
-- The calls on an open handle: what each keeps of it.
use stupid_kv.Base.{
  ℕ, ◌+◌, ◌^◌, ◌<◌, ◌≡◌, refl, sym, subst, ◌⊎◌, inl, inr, Bool, true, false, [], Bytes, bytes_ord,
  nat_ord, arith, Bool-cases, if◌then◌else◌, Result, ok, err, Crates,
}
use stupid_kv.Base.BTreeMap.{IsAscending}
use stupid_kv.Bloom
use stupid_kv.Bloom.Contains.{clear-IsFilter, may_contain-clear}
use stupid_kv.Db.{Inner}
use stupid_kv.Tx.{
  TransactionInner, Error, tx_closed, set, put, del, get, exists, cancel, track, clear_sets,
  is_serializable,
}
use stupid_kv.Tx.Begin.{fresh-IsReadset}
use stupid_kv.Tx.Reads.{track-Tracked}
use stupid_kv.Tx.Writes.{writes-IsAscending}
use stupid_kv.Pool.{with_snapshot_isolation, with_serializable_snapshot_isolation}
use stupid_kv.System.{
  Operation, sets, puts, dels, gets, looks, cancels, to_snapshot, to_serializable,
}
use stupid_kv.System.Handles.{IsHandle}

module _ ⦃c : Crates⦄ where
  -- The snapshot, the start and the counters stay; the sets stay sound.
  pub record Handled (now last : ℕ) (tx out : TransactionInner) : Type 0 where
    pub version : out.version ≡ tx.version
    pub counter_version : out.counter_version ≡ tx.counter_version
    pub commit : out.commit ≡ tx.commit
    pub counter_commit : out.counter_commit ≡ tx.counter_commit
    pub handle : IsHandle now last out

  module _ (now last : ℕ) (tx : TransactionInner) (v : IsHandle now last tx) where
    pub Handled-refl : Handled now last tx tx
    Handled-refl = record {
      version = refl;
      counter_version = refl;
      commit = refl;
      counter_commit = refl;
      handle = v;
    }

    Handled-track :
        (k : Bytes) → tx.readset_bloom.count + 1 < 2 ^ 64 → Handled now last tx (track tx k)
    unfolding track
    Handled-track k room =
        let t = track-Tracked tx k v.filter v.readset room in
        record {
          version = ground arith;
          counter_version = ground arith;
          commit = ground arith;
          counter_commit = ground arith;
          handle = record {
            ascending = same;
            filter = t.filter;
            readset = t.readset;
            snapshot = ground (arith, v.snapshot);
            start = ground (arith, v.start);
          };
        }
      where
        same : IsAscending (track tx k).writeset
        same =
            let e : (track tx k).writeset ≡ tx.writeset = ground arith in
            subst (λ w. IsAscending w) (sym e) v.ascending

    either-Handled :
        (k : Bytes) (out : TransactionInner)
        → tx.readset_bloom.count + 1 < 2 ^ 64
        → (out ≡ tx) ⊎ (out ≡ track tx k)
        → Handled now last tx out
    either-Handled k out room (inl e) = subst (Handled now last tx) (sym e) Handled-refl
    either-Handled k out room (inr e) = subst (Handled now last tx) (sym e) (Handled-track k room)

    pub clear_sets-Handled : (b : Bool) → Handled now last tx (clear_sets (record tx { done = b }))
    unfolding clear_sets
    clear_sets-Handled b = elim (Bool-cases (is_serializable tx.mode)) [
      | inl on ↦ rw on (record {
        version = refl;
        counter_version = refl;
        commit = refl;
        counter_commit = refl;
        handle = record {
          ascending = tt;
          filter = clear-IsFilter tx.readset_bloom;
          readset =
              fresh-IsReadset (Bloom.clear tx.readset_bloom)
                (may_contain-clear [] tx.readset_bloom).2;
          snapshot = v.snapshot;
          start = v.start;
        };
      })
      | inr off ↦ rw off (record {
        version = refl;
        counter_version = refl;
        commit = refl;
        counter_commit = refl;
        handle = record {
          ascending = tt;
          filter = v.filter;
          readset = v.readset;
          snapshot = v.snapshot;
          start = v.start;
        };
      })
    ]

    abbrev cancelled_if : Bool → Result Error (Unit {0}) × TransactionInner
    cancelled_if b =
        if b then (err tx_closed, tx) else (ok tt, clear_sets (record tx { done = true }))

    cancelled : (b : Bool) → Handled now last tx (cancelled_if b).1
    cancelled true = Handled-refl
    cancelled false = clear_sets-Handled true

    written :
        (out : TransactionInner)
        → IsAscending out.writeset
        → out ≡ record tx { writeset = out.writeset }
        → Handled now last tx out
    written out s e = subst (Handled now last tx) (sym e) (record {
      version = refl;
      counter_version = refl;
      commit = refl;
      counter_commit = refl;
      handle = record {
        ascending = s;
        filter = v.filter;
        readset = v.readset;
        snapshot = v.snapshot;
        start = v.start;
      };
    })

    -- Each call on a handle keeps its snapshot, its start and its counters, and leaves its sets
    -- sound.
    pub Operation-Handled :
        (db : Inner) (out : TransactionInner) → Operation db tx out → Handled now last tx out
    unfolding set put del get exists cancel with_snapshot_isolation
        with_serializable_snapshot_isolation
    Operation-Handled db out (sets k val) =
        written _ (writes-IsAscending tx v.ascending db k val).0 (ground arith)
    Operation-Handled db out (puts k val) =
        written _ (writes-IsAscending tx v.ascending db k val).1 (ground arith)
    Operation-Handled db out (dels k) =
        written _ (writes-IsAscending tx v.ascending db k []).2 (ground arith)
    Operation-Handled db out (gets k room) = either-Handled k _ room (ground arith)
    Operation-Handled db out (looks k room) = either-Handled k _ room (ground arith)
    Operation-Handled db out cancels = cancelled tx.done
    Operation-Handled db out to_snapshot = record {
      version = refl;
      counter_version = refl;
      commit = refl;
      counter_commit = refl;
      handle = record {
        ascending = v.ascending;
        filter = v.filter;
        readset = v.readset;
        snapshot = v.snapshot;
        start = v.start;
      };
    }
    Operation-Handled db out to_serializable = record {
      version = refl;
      counter_version = refl;
      commit = refl;
      counter_commit = refl;
      handle = record {
        ascending = v.ascending;
        filter = v.filter;
        readset = v.readset;
        snapshot = v.snapshot;
        start = v.start;
      };
    }
