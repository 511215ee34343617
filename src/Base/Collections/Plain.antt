-- ===== src/Base/Collections/Plain.antt =====
-- A concrete encoding with the laws of `bincode`: lists of lists, each element raised by one and
-- each list closed by a zero, twice over.
use Prim.Native.Nat.{ℕ, zero, suc}
use mathlib.Core.Path.{◌≡◌, refl, ap, sym, ◌∙◌, subst}
use mathlib.Core.Logic.{◌≢◌}
use mathlib.Core.Option.{Option, none, some}
use mathlib.Core.List.{List, [], ◌∷◌, ◌++◌}
use native.Mathlib.Omega.{arith}
use stupid_kv.Base.Order.{Bytes}
use stupid_kv.Base.Bincode.{Decoded, got, eof, broken}

abbrev pub closed : Bytes → Bytes
closed [] = 0 ∷ []
closed (x ∷ xs) = suc x ∷ closed xs

abbrev raised : ℕ → Decoded Bytes → Decoded Bytes
raised x (got xs rest) = got (x ∷ xs) rest
raised x eof = eof
raised x broken = broken

abbrev pub read_closed : Bytes → Decoded Bytes
read_closed [] = eof
read_closed (zero ∷ rest) = got [] rest
read_closed (suc x ∷ rest) = raised x (read_closed rest)

read_closed-closed : (xs rest : Bytes) → read_closed (closed xs ++ rest) ≡ got xs rest
read_closed-closed [] rest = refl
read_closed-closed (x ∷ xs) rest = ap (raised x) (read_closed-closed xs rest)

read_closed_part : (xs p q : Bytes) → p ++ q ≡ closed xs → q ≢ [] → read_closed p ≡ eof
read_closed_part xs [] q e h = refl
read_closed_part [] (y ∷ []) q e h = absurd (h (ground (arith, e)))
read_closed_part [] (y ∷ z ∷ p) q e h = cc
read_closed_part (x ∷ xs) (y ∷ p) q e h =
    let same : y ≡ suc x = ground (arith, e) in
    let rest : p ++ q ≡ closed xs = ground (arith, e) in
    subst (λ n. read_closed (n ∷ p) ≡ eof) (sym same)
      (ap (raised x) (read_closed_part xs p q rest h))

-- A list of lists as one.
abbrev pub join : List Bytes → Bytes
join [] = []
join (xs ∷ l) = closed xs ++ join l

abbrev head_cons : ℕ → Option (List Bytes) → Option (List Bytes)
head_cons x none = none
head_cons x (some []) = none
head_cons x (some (xs ∷ l)) = some ((x ∷ xs) ∷ l)

abbrev fresh_list : Option (List Bytes) → Option (List Bytes)
fresh_list none = none
fresh_list (some l) = some ([] ∷ l)

abbrev pub split : Bytes → Option (List Bytes)
split [] = some []
split (zero ∷ rest) = fresh_list (split rest)
split (suc x ∷ rest) = head_cons x (split rest)

split-closed :
    (xs rest : Bytes) (l : List Bytes)
    → split rest ≡ some l
    → split (closed xs ++ rest) ≡ some (xs ∷ l)
split-closed [] rest l e = ap fresh_list e
split-closed (x ∷ xs) rest l e = ap (head_cons x) (split-closed xs rest l e)

split-join : (l : List Bytes) → split (join l) ≡ some l
split-join [] = refl
split-join (xs ∷ l) = split-closed xs (join l) l (split-join l)

-- A value with its version, and a chain with its key.
abbrev version_list : ℕ × Option Bytes → Bytes
version_list (v, none) = v ∷ 0 ∷ []
version_list (v, some b) = v ∷ 1 ∷ b

abbrev list_version : Bytes → Option (ℕ × Option Bytes)
list_version [] = none
list_version (v ∷ []) = none
list_version (v ∷ zero ∷ b) = some (v, none)
list_version (v ∷ suc n ∷ b) = some (v, some b)

list_version-version_list : (w : ℕ × Option Bytes) → list_version (version_list w) ≡ some w
list_version-version_list (v, none) = refl
list_version-version_list (v, some b) = refl

abbrev versions_lists : List (ℕ × Option Bytes) → List Bytes
versions_lists [] = []
versions_lists (w ∷ ws) = version_list w ∷ versions_lists ws

abbrev both :
    Option (ℕ × Option Bytes) → Option (List (ℕ × Option Bytes)) → Option (List (ℕ × Option Bytes))
both none ws = none
both (some w) none = none
both (some w) (some ws) = some (w ∷ ws)

abbrev lists_versions : List Bytes → Option (List (ℕ × Option Bytes))
lists_versions [] = some []
lists_versions (xs ∷ l) = both (list_version xs) (lists_versions l)

lists_versions-versions_lists :
    (ws : List (ℕ × Option Bytes)) → lists_versions (versions_lists ws) ≡ some ws
lists_versions-versions_lists [] = refl
lists_versions-versions_lists (w ∷ ws) =
    ap (λ o. both o (lists_versions (versions_lists ws))) (list_version-version_list w)
    ∙ ap (both (some w)) (lists_versions-versions_lists ws)

abbrev Chain : Type 0
Chain = Bytes × List (ℕ × Option Bytes)

abbrev pub encode_chain : Chain → Bytes
encode_chain (k, ws) = closed (join (k ∷ versions_lists ws))

abbrev with_key : Bytes → Option (List (ℕ × Option Bytes)) → Bytes → Decoded Chain
with_key k none rest = broken
with_key k (some ws) rest = got (k, ws) rest

abbrev keyed : Option (List Bytes) → Bytes → Decoded Chain
keyed none rest = broken
keyed (some []) rest = broken
keyed (some (k ∷ l)) rest = with_key k (lists_versions l) rest

abbrev as_chain : Decoded Bytes → Decoded Chain
as_chain eof = eof
as_chain broken = broken
as_chain (got xs rest) = keyed (split xs) rest

abbrev pub decode_chain : Bytes → Decoded Chain
decode_chain xs = as_chain (read_closed xs)

pub decode_chain-encode_chain :
    (a : Chain) (rest : Bytes) → decode_chain (encode_chain a ++ rest) ≡ got a rest
decode_chain-encode_chain (k, ws) rest =
    ap as_chain (read_closed-closed (join (k ∷ versions_lists ws)) rest)
    ∙ ap (λ o. keyed o rest) (split-join (k ∷ versions_lists ws))
    ∙ ap (λ o. with_key k o rest) (lists_versions-versions_lists ws)

pub decode_chain_part :
    (a : Chain) (p q : Bytes) → p ++ q ≡ encode_chain a → q ≢ [] → decode_chain p ≡ eof
decode_chain_part (k, ws) p q e h =
    ap as_chain (read_closed_part (join (k ∷ versions_lists ws)) p q e h)

-- An entry of the log is a chain of one version.
abbrev Write : Type 0
Write = Bytes × ℕ × Option Bytes

abbrev chain_of : Write → Chain
chain_of (k, v, value) = (k, (v, value) ∷ [])

abbrev as_write : Decoded Chain → Decoded Write
as_write eof = eof
as_write broken = broken
as_write (got (k, []) rest) = broken
as_write (got (k, (v, value) ∷ []) rest) = got (k, v, value) rest
as_write (got (k, w ∷ x ∷ ws) rest) = broken

abbrev pub encode_write : Write → Bytes
encode_write a = encode_chain (chain_of a)

abbrev pub decode_write : Bytes → Decoded Write
decode_write xs = as_write (decode_chain xs)

pub decode_write-encode_write :
    (a : Write) (rest : Bytes) → decode_write (encode_write a ++ rest) ≡ got a rest
decode_write-encode_write (k, v, value) rest =
    ap as_write (decode_chain-encode_chain (k, (v, value) ∷ []) rest)

pub decode_write_part :
    (a : Write) (p q : Bytes) → p ++ q ≡ encode_write a → q ≢ [] → decode_write p ≡ eof
decode_write_part (k, v, value) p q e h =
    ap as_write (decode_chain_part (k, (v, value) ∷ []) p q e h)
