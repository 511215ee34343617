-- ===== src/Base/Bincode.antt =====
-- `bincode::serde`, by its documented behaviour: what is encoded is decoded again, whatever follows
-- it, and of a part of an encoding the decoder reports `UnexpectedEof`.
use mathlib.Core.Path.{◌≡◌, refl, ap, sym, ◌∙◌}
use mathlib.Core.Logic.{◌≢◌}
use mathlib.Core.List.{List, [], ◌∷◌, ◌++◌}
use native.Mathlib.Omega.{arith}
use stupid_kv.Base.Lists.{append_assoc}
use stupid_kv.Base.Order.{Bytes}

-- The result of `decode_from_std_read`: a value and what is left in the reader, the end of the
-- reader, or another error.
pub data Decoded (A : Type 0) : Type 0 where
  got : A → Bytes → Decoded A
  eof broken : Decoded A

pub record Codec (A : Type 0) : Type 0 where
  pub encode : A → Bytes
  pub decode : Bytes → Decoded A
  pub decode-encode : (a : A) (rest : Bytes) → decode (encode a ++ rest) ≡ got a rest
  pub decode_part : (a : A) (p q : Bytes) → p ++ q ≡ encode a → q ≢ [] → decode p ≡ eof

-- The values one after the other.
unfoldable pub encode_all : {A : Type 0} → Codec A → List A → Bytes
encode_all codec [] = []
encode_all codec (a ∷ as') = Codec.encode codec a ++ encode_all codec as'

-- A part of an encoding that is not the whole of it.
abbrev pub IsTorn : {A : Type 0} → Codec A → Bytes → Type 0
IsTorn {A} codec p = (a : A) × (q : Bytes) × (p ++ q ≡ Codec.encode codec a) × (q ≢ [])

module _ {A : Type 0} (codec : Codec A) where
  -- Where there are two values no encoding is empty.
  pub encode-nonempty : (a b : A) → a ≢ b → Codec.encode codec a ≢ []
  encode-nonempty a b h e = h (
      ground (
        arith,
        codec.decode-encode a (Codec.encode codec b ++ []),
        codec.decode-encode b [],
        ap (λ (x : Bytes). Codec.decode codec (x ++ (Codec.encode codec b ++ []))) e,
      ))

  pub encode_all-append :
      (as' bs : List A) → encode_all codec (as' ++ bs) ≡ encode_all codec as' ++ encode_all codec bs
  unfolding encode_all
  encode_all-append [] bs = refl
  encode_all-append (a ∷ as') bs =
      ap (λ l. Codec.encode codec a ++ l) (encode_all-append as' bs)
      ∙ sym (append_assoc (Codec.encode codec a) (encode_all codec as') (encode_all codec bs))
