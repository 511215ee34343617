-- ===== src/Bindings/Calls.antt =====
-- The calls of the C interface on a handle.
use stupid_kv.Base.{
  ◌≡◌, ◌⊎◌, Option, true, false, some, Bytes, bytes_ord, arith, eqb, if◌then◌else◌, ok, length,
  Crates,
}
use stupid_kv.Db.{Inner}
use stupid_kv.Tx.{TransactionInner}
use stupid_kv.Tx
use stupid_kv.Tx.Writes.{get-set}
use stupid_kv.Bindings.{
  Buffer, WriteOp, sk_ok, bytes, live, sk_tx_set, sk_tx_get, write_op, value_of, write_action,
  found, hand_out,
}

module _ ⦃c : Crates⦄ (db : Inner) (tx : TransactionInner) (active : tx.done ≡ false)
    (write : tx.write ≡ true) where
  -- On a handle with an open, writing transaction, with buffers that are not null at a length other
  -- than 0: `sk_tx_set` answers that it is done, `sk_tx_get` at a buffer with the same bytes, with
  -- both out-parameters, then gives a live copy of the value with its length, and at a buffer with
  -- other bytes it answers what it answered before.
  pub sk_tx_get-sk_tx_set :
      (key val other : Buffer) (k v j : Bytes)
      → bytes key ≡ ok k
      → bytes val ≡ ok v
      → bytes other ≡ ok j
      → ((sk_tx_set db (some (some tx)) key val).0 ≡ sk_ok)
        × ((sk_tx_get db (sk_tx_set db (some (some tx)) key val).1 other true true).0 ≡ (
            if eqb j k
            then record { code = sk_ok; val_out = some (live v); val_len = some (length v) }
            else (sk_tx_get db (some (some tx)) other true true).0))
  unfolding sk_tx_set sk_tx_get write_op value_of write_action found hand_out
  sk_tx_get-sk_tx_set key val other k v j hk hv hj = ground (
    arith,
    hk,
    hv,
    hj,
    (get-set db tx active write k v j).0,
    (get-set db tx active write k v j).1,
  )

-- Whatever the operation, the buffers and the handle, null ones included: the body that the three
-- writing calls share answers that it is done, or it leaves the handle as it was.
pub write_op-unchanged :
    ⦃c : Crates⦄ (db : Inner) (handle : Option (Option TransactionInner)) (key : Buffer)
    (val : Option Buffer) (op : WriteOp)
    → ((write_op db handle key val op).0 ≡ sk_ok) ⊎ ((write_op db handle key val op).1 ≡ handle)
unfolding write_op value_of write_action Tx.set Tx.put Tx.del bytes
write_op-unchanged db handle key val op = ground arith
