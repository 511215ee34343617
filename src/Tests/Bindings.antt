-- ===== src/Tests/Bindings.antt =====
-- The theorems on the C interface, at concrete buffers.
use stupid_kv.Base.{◌≡◌, refl, true, some, [], bytes_ord, eqb, if◌then◌else◌}
use stupid_kv.Base.Collections.Instance.{list_crates}
use stupid_kv.Bindings.{at, null, sk_ok, live, bytes, sk_tx_set, sk_tx_get}
use stupid_kv.Bindings.Calls.{sk_tx_get-sk_tx_set}
use stupid_kv.Tests.{key_b, filled, writer}

-- The null buffer of length 0 is an empty value.
sk_tx_get-sk_tx_set_example :
    ((sk_tx_set filled (some (some writer)) (at key_b) (null 0)).0 ≡ sk_ok)
    × ((sk_tx_get filled
          (sk_tx_set filled (some (some writer)) (at key_b) (null 0)).1
          (at key_b)
          true
          true).0
        ≡ (if eqb key_b key_b
            then record { code = sk_ok; val_out = some (live []); val_len = some 0 }
            else (sk_tx_get filled (some (some writer)) (at key_b) true true).0))
unfolding bytes
sk_tx_get-sk_tx_set_example =
    sk_tx_get-sk_tx_set filled writer refl refl (at key_b) (null 0) (at key_b) key_b [] key_b refl
      refl refl
