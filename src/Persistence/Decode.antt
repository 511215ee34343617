-- ===== src/Persistence/Decode.antt =====
-- What the loop of `load` reads back of a file.
use stupid_kv.Base.{
  ℕ, zero, suc, ◌<◌, ◌≤◌, ◌≡◌, refl, sym, ap, ◌∙◌, true, some, List, [], ◌∷◌, ◌++◌, Bytes,
  bytes_ord, nat_ord, arith, Bool-cases, length, ok, Codec, encode_all, IsTorn, append_assoc,
  Crates, inl, inr, ◌-◌, ◌≢◌, ◌⊎◌, length-append, take, drop, take-drop, ltb, cmp_bytes,
}
use stupid_kv.Db.{Datastore}
use stupid_kv.Persistence.Files.{decode_loop, load_file}
use stupid_kv.Compression.{detect, read_compressed}

-- One entry after the other.
abbrev pub fold_left : {A S : Type 0} → (S → A → S) → S → List A → S
fold_left step s [] = s
fold_left step s (a ∷ as') = fold_left step (step s a) as'

-- The loop reads the entries that were written, and stops at the end of the file, whether the file
-- ends after an entry or in the middle of one. One round more than there are entries is enough.
pub decode_loop-encode_all :
    {A S : Type 0} (codec : Codec A) (step : S → A → S) (torn : Bytes) (cut : IsTorn codec torn)
    (as' : List A) (fuel : ℕ) (s : S)
    → length as' < fuel
    → decode_loop codec step fuel (encode_all codec as' ++ torn) true s
      ≡ (fold_left step s as', ok tt)
unfolding decode_loop encode_all
decode_loop-encode_all codec step torn cut as' zero s h = absurd (omega arith)
decode_loop-encode_all codec step torn (a, q, e, more) [] (suc fuel) s h =
    rw (codec.decode_part a torn q e more, decode_loop) refl
decode_loop-encode_all codec step torn cut (a ∷ as') (suc fuel) s h =
    rw
      (
        append_assoc (Codec.encode codec a) (encode_all codec as') torn,
        codec.decode-encode a (encode_all codec as' ++ torn),
        decode_loop,
      )
      (decode_loop-encode_all codec step torn cut as' fuel (step s a) (omega arith))

pub fold_left-append :
    {A S : Type 0} (step : S → A → S) (s : S) (xs ys : List A)
    → fold_left step s (xs ++ ys) ≡ fold_left step (fold_left step s xs) ys
fold_left-append step s [] ys = refl
fold_left-append step s (x ∷ xs) ys = fold_left-append step (step s x) xs ys

-- An empty file is read as nothing.
read_nothing : ⦃c : Crates⦄ (bytes : Bytes) → read_compressed [] ≡ some (bytes, true) → [] ≡ bytes
unfolding read_compressed detect cmp_bytes
read_nothing bytes e = ground (arith, e)

pub longer_key : (k : Bytes) → k ≢ 0 ∷ k
longer_key k e = let same = ap length e in absurd (omega arith)

take_nil : (n : ℕ) → take {A = ℕ} n [] ≡ []
take_nil zero = refl
take_nil (suc n) = refl

take-append_le : (n : ℕ) (xs ys : Bytes) → n ≤ length xs → take n (xs ++ ys) ≡ take n xs
take-append_le zero xs ys h = refl
take-append_le (suc n) [] ys h = absurd (omega arith)
take-append_le (suc n) (x ∷ xs) ys h = ap (λ l. x ∷ l) (take-append_le n xs ys (omega arith))

take-append_ge :
    (n : ℕ) (xs ys : Bytes) → length xs ≤ n → take n (xs ++ ys) ≡ xs ++ take (n - length xs) ys
take-append_ge n [] ys h = let same : n - 0 ≡ n = omega arith in rw same refl
take-append_ge zero (x ∷ xs) ys h = absurd (omega arith)
take-append_ge (suc n) (x ∷ xs) ys h =
    let same : suc n - suc (length xs) ≡ n - length xs = omega arith in
    rw same (ap (λ l. x ∷ l) (take-append_ge n xs ys (omega arith)))

drop-nonempty : (n : ℕ) (xs : Bytes) → n < length xs → drop n xs ≢ []
drop-nonempty n [] h e = absurd (omega arith)
drop-nonempty zero (x ∷ xs) h e = cc
drop-nonempty (suc n) (x ∷ xs) h e = drop-nonempty n xs (omega arith) e

module _ {A : Type 0} (codec : Codec A) (full : (a : A) → Codec.encode codec a ≢ []) where
  length_positive : (xs : Bytes) → xs ≢ [] → 0 < length xs
  length_positive [] h = absurd (h refl)
  length_positive (x ∷ xs) h = omega arith

  -- There are no more entries than bytes.
  length-encode_all : (as' : List A) → length as' ≤ length (encode_all codec as')
  unfolding encode_all
  length-encode_all [] = omega arith
  length-encode_all (a ∷ as') = omega (
    arith,
    length-encode_all as',
    length_positive (Codec.encode codec a) (full a),
    length-append (Codec.encode codec a) (encode_all codec as'),
  )

  -- The number of the entries that are whole in the first `n` bytes.
  abbrev pub IsWhole : List A → ℕ → ℕ → Type 0
  IsWhole as' n k =
      (length (encode_all codec (take k as')) ≤ n)
      × ((n < length (encode_all codec (take (suc k) as'))) ⊎ (k ≡ length as'))

  whole_after :
      (one : Bytes) (as' : List A) (n k : ℕ)
      → length one ≤ n
      → (n - length one < length (encode_all codec (take (suc k) as'))) ⊎ (k ≡ length as')
      → (n < length (one ++ encode_all codec (take (suc k) as'))) ⊎ (suc k ≡ suc (length as'))
  whole_after one as' n k h (inl more) =
      inl (omega (arith, more, length-append one (encode_all codec (take (suc k) as'))))
  whole_after one as' n k h (inr all) = inr (ap suc all)

  -- The first part of a file, cut anywhere, has its first entries and a part of one more.
  pub take-encode_all :
      (as' : List A) (n : ℕ) (some_entry : A)
      → (k : ℕ) × (torn : Bytes) × IsTorn codec torn
        × IsWhole as' n k
        × (take n (encode_all codec as') ≡ encode_all codec (take k as') ++ torn)
  unfolding encode_all
  take-encode_all [] n some_entry = (
    0,
    [],
    (some_entry, Codec.encode codec some_entry, refl, full some_entry),
    (omega arith, inr refl),
    take_nil n,
  )
  take-encode_all (a ∷ as') n some_entry =
      let one = Codec.encode codec a in
      let rest = encode_all codec as' in
      elim (Bool-cases (ltb n (length one))) [
        | inl inside ↦ (
          0,
          take n one,
          (a, drop n one, take-drop n one, drop-nonempty n one (ground (arith, inside))),
          (omega arith, inl (ground (arith, inside, length-append one []))),
          take-append_le n one rest (ground (arith, inside)),
        )
        | inr beyond ↦
            let (k, torn, cut, (below, above), same) =
              take-encode_all as' (n - length one) some_entry in
            (
              suc k,
              torn,
              cut,
              (
                ground (arith, beyond, below, length-append one (encode_all codec (take k as'))),
                whole_after one as' n k (ground (arith, beyond)) above,
              ),
              take-append_ge n one rest (ground (arith, beyond))
                  ∙ ap (λ l. one ++ l) same
                  ∙ sym (append_assoc one (encode_all codec (take k as')) torn),
            )
      ]

  module _ ⦃c : Crates⦄ (step : Datastore → A → Datastore) (torn : Bytes) (cut : IsTorn codec torn)
      (as' : List A) (ds : Datastore) where
    nothing_read : encode_all codec as' ++ torn ≡ [] → fold_left step ds as' ≡ ds
    nothing_read e = none_left as' (
        omega
          (arith, ap length e, length-append (encode_all codec as') torn, length-encode_all as'))
      where
        none_left : (l : List A) → length l ≤ 0 → fold_left step ds l ≡ ds
        none_left [] h = refl
        none_left (x ∷ l) h = absurd (omega arith)

    -- A file that reads as the entries, and perhaps a part of one more, is loaded entry by entry.
    pub load_file-encode_all :
        (file : Bytes)
        → read_compressed file ≡ some (encode_all codec as' ++ torn, true)
        → load_file codec step (some file) ds ≡ (fold_left step ds as', ok tt)
    unfolding load_file
    load_file-encode_all [] e =
        let empty : encode_all codec as' ++ torn ≡ [] = sym (read_nothing _ e) in
        ap (λ x. (x, ok tt)) (sym (nothing_read empty))
    load_file-encode_all (x ∷ xs) e =
        rw (e, load_file)
          (decode_loop-encode_all codec step torn cut as'
            (suc (length (encode_all codec as' ++ torn))) ds
            (omega (arith, length-append (encode_all codec as') torn, length-encode_all as')))
