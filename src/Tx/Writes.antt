-- ===== src/Tx/Writes.antt =====
-- `set`, `put` and `del`: what they refuse, and what the transaction reads after them.
use stupid_kv.Base.{
  ◌⊎◌, ◌≡◌, Bool, true, false, Option, none, some, Bytes, bytes_ord, arith, eqb, if◌then◌else◌,
  Result, ok, err, Crates,
}
use stupid_kv.Base.BTreeMap.{IsAscending, insert-IsAscending}
use stupid_kv.Base.BTreeMap
use stupid_kv.Db.{Inner}
use stupid_kv.Tx.{
  TransactionInner, tx_closed, tx_not_writable, key_already_exists, fetch_in_datastore,
  exists_in_datastore, track,
}
use stupid_kv.Tx
use stupid_kv.Tx.{Error}

module _ ⦃c : Crates⦄ (db : Inner) (tx : TransactionInner) (active : tx.done ≡ false)
    (write : tx.write ≡ true) where
  -- In an open, writing transaction `set` succeeds, and `get` then returns the new value at its
  -- key and what it returned before at every other key.
  pub get-set :
      (k val j : Bytes)
      → ((Tx.set tx k val).0 ≡ ok tt)
        × ((Tx.get db (Tx.set tx k val).1 j).0
            ≡ (if eqb j k then ok (some val) else (Tx.get db tx j).0))
  unfolding Tx.get Tx.set
  get-set k val j = ground (arith, active, write, BTreeMap.get-insert k j (some val) tx.writeset)

  -- In an open, writing transaction `del` succeeds, and `get` then finds nothing at its key and
  -- what it found before at every other key.
  pub get-del :
      (k j : Bytes)
      → ((Tx.del tx k).0 ≡ ok tt)
        × ((Tx.get db (Tx.del tx k).1 j).0 ≡ (if eqb j k then ok none else (Tx.get db tx j).0))
  unfolding Tx.get Tx.del
  get-del k j = ground (arith, active, write, BTreeMap.get-insert k j none tx.writeset)

  -- In an open, writing transaction `put` is `set` where `exists` answers `false`, and where it
  -- answers `true` it fails with `KeyAlreadyExists` and changes nothing.
  pub put-exists :
      (k val : Bytes) (found : Bool)
      → (Tx.exists db tx k).0 ≡ ok found
      → Tx.put db tx k val ≡ (if found then (err key_already_exists, tx) else Tx.set tx k val)
  unfolding Tx.put Tx.exists Tx.set
  put-exists k val found h = ground (arith, active, write, h)

module _ ⦃c : Crates⦄ (db : Inner) (tx : TransactionInner) (k val : Bytes) where
  -- Each of `set`, `put` and `del` succeeds or leaves the transaction as it was.
  pub refused-unchanged :
      (((Tx.set tx k val).0 ≡ ok tt) ⊎ ((Tx.set tx k val).1 ≡ tx))
      × (((Tx.put db tx k val).0 ≡ ok tt) ⊎ ((Tx.put db tx k val).1 ≡ tx))
      × (((Tx.del tx k).0 ≡ ok tt) ⊎ ((Tx.del tx k).1 ≡ tx))
  unfolding Tx.set Tx.put Tx.del
  refused-unchanged = (ground arith, ground arith, ground arith)

module _ ⦃c : Crates⦄ (tx : TransactionInner) (s : IsAscending tx.writeset) where
  writing-IsAscending :
      (action : Result Error (Unit {0}) × TransactionInner)
      → IsAscending action.1.writeset
      → IsAscending (Tx.writing tx action).1.writeset
  writing-IsAscending action h = guarded tx.done tx.write
    where
      guarded :
          (done write : Bool)
          → IsAscending
              (if done
                then (err tx_closed, tx)
                else if write
                then action
                else (err tx_not_writable, tx)).1.writeset
      guarded true write = s
      guarded false true = h
      guarded false false = s

  putting-IsAscending :
      (db : Inner) (k val : Bytes) (old : Option (Option Bytes)) (there : Bool)
      → IsAscending
          (elim old as (λ _. Result Error (Unit {0}) × TransactionInner) [
            | some v ↦ (err key_already_exists, tx)
            | none ↦
                if there
                then (err key_already_exists, tx)
                else (ok tt, Tx.write_key tx k (some val))
          ]).1.writeset
  putting-IsAscending db k val (some v) there = s
  putting-IsAscending db k val none true = s
  putting-IsAscending db k val none false = insert-IsAscending k (some val) tx.writeset s

  -- `set`, `put` and `del` keep the keys of the write set ascending, whatever they return.
  pub writes-IsAscending :
      (db : Inner) (k val : Bytes)
      → IsAscending (Tx.set tx k val).1.writeset
        × IsAscending (Tx.put db tx k val).1.writeset
        × IsAscending (Tx.del tx k).1.writeset
  unfolding Tx.set Tx.put Tx.del
  writes-IsAscending db k val = (
    writing-IsAscending _ (insert-IsAscending k (some val) tx.writeset s),
    writing-IsAscending _ (
        putting-IsAscending db k val (BTreeMap.get k tx.writeset)
          (exists_in_datastore db k tx.version)),
    writing-IsAscending _ (insert-IsAscending k none tx.writeset s),
  )
