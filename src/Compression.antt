-- ===== src/Compression.antt =====
-- src/compression/compression.rs. The LZ4 crate is a parameter; a writer is the bytes that it makes
-- of all it is given.
use stupid_kv.Base.{
  Bool, true, Option, some, [], ◌∷◌, Bytes, bytes_ord, eqb, cmp_bytes, take, ◌≡◌, refl,
  if◌then◌else◌, Crates,
}

pub data CompressionMode : Type 0 where
  plain lz4 : CompressionMode

-- The magic number of an LZ4 frame.
abbrev pub magic : Bytes
magic = 4 ∷ 34 ∷ 77 ∷ 24 ∷ []

module _ ⦃c : Crates⦄ where
  -- `CompressedWriter`: what is in the file after the writer is flushed.
  unfoldable pub write_compressed : CompressionMode → Bytes → Bytes
  write_compressed plain bytes = bytes
  write_compressed lz4 bytes = c.lz4_write bytes

  -- `CompressedReader::new` looks at the first four bytes.
  unfoldable pub detect : Bytes → CompressionMode
  detect bytes = if eqb (take 4 bytes) magic then lz4 else plain

  -- What the reader reads, and whether it ends without an error; `none` where it is not made.
  unfoldable pub read_compressed : Bytes → Option (Bytes × Bool)
  unfolding detect
  read_compressed bytes = elim (detect bytes) [
    | plain ↦ some (bytes, true)
    | lz4 ↦ c.lz4_read bytes
  ]

  -- A compressed file is read as it was written; a file that was not compressed, where its first
  -- bytes are not taken for an LZ4 frame.
  pub read_compressed-write_compressed :
      (mode : CompressionMode) (bytes : Bytes)
      → (mode ≡ plain → detect bytes ≡ plain)
      → read_compressed (write_compressed mode bytes) ≡ some (bytes, true)
  unfolding read_compressed write_compressed cmp_bytes
  read_compressed-write_compressed plain bytes h = rw (h refl, read_compressed) refl
  read_compressed-write_compressed lz4 bytes h =
      let (rest, e) = c.lz4_magic bytes in
      let frame : detect (c.lz4_write bytes) ≡ lz4 = rw e (unfold detect in refl) in
      rw (frame, read_compressed) (c.lz4_read-lz4_write bytes)
