-- ===== src/Protocol/Access.antt =====
-- src/protocol.rs: what its reads find in a buffer that its writes made.
use mathlib.Core.Path.{subst}
use ferrox.Prelude.{
  ap, arith, inl, leb, length, ltb, ok, refl, suc, true, ◌+◌, ◌<◌, ◌∙◌, ◌∷◌, ◌≡◌, ◌≤◌, ℕ, ℤ, List,
  [],
}
use ferrox.Protocol.Bytes.{
  IsI64, byte, byte-put, from_le-to_le, length-put, length-to_le, slice, slice-put_ne,
  slice-put_self, to_le, word_of_ℤ, word_of_ℤ-lt, ℤ_of_word, ℤ_of_word-word_of_ℤ, put,
}
use ferrox.Protocol.{
  get_range, put_range, read_u8, read_u32, read_u64, read_i64, write_u8, write_u32, write_u64,
  write_i64,
}

-- Fields written one after the other: each with its offset and its bytes.
abbrev pub put_all : List (ℕ × List ℕ) → List ℕ → List ℕ
put_all [] buf = buf
put_all ((offset, bytes) ∷ fields) buf = put_all fields (put offset bytes buf)

abbrev pub AllFrom : ℕ → List (ℕ × List ℕ) → Type 0
AllFrom e [] = Unit
AllFrom e ((offset, bytes) ∷ fields) = (e ≤ offset) × AllFrom e fields

pub length-put_all :
    (fields : List (ℕ × List ℕ)) (buf : List ℕ) → length (put_all fields buf) ≡ length buf
length-put_all [] buf = refl
length-put_all ((offset, bytes) ∷ fields) buf =
    length-put_all fields (put offset bytes buf) ∙ length-put offset bytes buf

slice-put_all :
    (n offset : ℕ) (fields : List (ℕ × List ℕ)) (buf : List ℕ)
    → AllFrom (offset + n) fields
    → slice n offset (put_all fields buf) ≡ slice n offset buf
slice-put_all n offset [] buf later = refl
slice-put_all n offset ((o, bytes) ∷ fields) buf later =
    slice-put_all n offset fields (put o bytes buf) later.1
    ∙ slice-put_ne n offset o bytes buf (inl later.0)

byte-put_all :
    (i : ℕ) (fields : List (ℕ × List ℕ)) (buf : List ℕ)
    → AllFrom (suc i) fields
    → byte (put_all fields buf) i ≡ byte buf i
byte-put_all i [] buf later = refl
byte-put_all i ((o, bytes) ∷ fields) buf later =
    byte-put_all i fields (put o bytes buf) later.1
    ∙ byte-put o bytes buf i (inl (omega (arith, later.0)))

-- A field is read again, whatever is written behind it.
module _ (offset : ℕ) (fields : List (ℕ × List ℕ)) (buf : List ℕ) where
  get_range-field :
      (n : ℕ) (bytes : List ℕ)
      → length bytes ≡ n
      → offset + n ≤ length buf
      → AllFrom (offset + n) fields
      → get_range (put_all fields (put offset bytes buf)) offset n ≡ ok bytes
  unfolding get_range
  get_range-field n bytes size room later =
      let fits : leb (offset + n) (length (put_all fields (put offset bytes buf))) ≡ true =
        ground (arith, length-put_all fields (put offset bytes buf), length-put offset bytes buf) in
      let same : slice n offset (put offset bytes buf) ≡ bytes =
        subst (λ k. slice k offset (put offset bytes buf) ≡ bytes) size
          (slice-put_self offset bytes buf (omega arith)) in
      rw fits (ap ok (slice-put_all n offset fields (put offset bytes buf) later ∙ same))

  pub read_u8-field :
      (b : ℕ)
      → offset + 1 ≤ length buf
      → AllFrom (offset + 1) fields
      → read_u8 (put_all fields (put offset (b ∷ []) buf)) offset ≡ ok b
  unfolding read_u8 slice
  read_u8-field b room later =
      let here = slice-put_self offset (b ∷ []) buf room in
      let stays = slice-put_all 1 offset fields (put offset (b ∷ []) buf) later in
      let fits : ltb offset (length (put_all fields (put offset (b ∷ []) buf))) ≡ true =
        ground (
          arith,
          length-put_all fields (put offset (b ∷ []) buf),
          length-put offset (b ∷ []) buf,
        ) in
      rw fits (ap (λ bytes. ok (byte bytes 0)) (stays ∙ here))

  pub read_u64-field :
      (v : ℕ)
      → v < 18_446_744_073_709_551_616
      → offset + 8 ≤ length buf
      → AllFrom (offset + 8) fields
      → read_u64 (put_all fields (put offset (to_le 8 v) buf)) offset ≡ ok v
  unfolding read_u64
  read_u64-field v word room later =
      rw (get_range-field 8 (to_le 8 v) (length-to_le 8 v) room later)
        (ap ok (from_le-to_le 8 v word))

  pub read_u32-field :
      (v : ℕ)
      → v < 4_294_967_296
      → offset + 4 ≤ length buf
      → AllFrom (offset + 4) fields
      → read_u32 (put_all fields (put offset (to_le 4 v) buf)) offset ≡ ok v
  unfolding read_u32
  read_u32-field v word room later =
      rw (get_range-field 4 (to_le 4 v) (length-to_le 4 v) room later)
        (ap ok (from_le-to_le 4 v word))

  pub read_i64-field :
      (p : ℤ)
      → IsI64 p
      → offset + 8 ≤ length buf
      → AllFrom (offset + 8) fields
      → read_i64 (put_all fields (put offset (to_le 8 (word_of_ℤ p)) buf)) offset ≡ ok p
  unfolding read_i64
  read_i64-field p word room later =
      rw (get_range-field 8 (to_le 8 (word_of_ℤ p)) (length-to_le 8 (word_of_ℤ p)) room later) (
        ap ok (
          ap ℤ_of_word (from_le-to_le 8 (word_of_ℤ p) (word_of_ℤ-lt p word))
          ∙ ℤ_of_word-word_of_ℤ p word))

-- A write within the buffer is made.
module _ (buf : List ℕ) (offset : ℕ) where
  pub write_u8-put :
      (b : ℕ) → offset + 1 ≤ length buf → write_u8 buf offset b ≡ ok (put offset (b ∷ []) buf)
  unfolding write_u8 put_range
  write_u8-put b room = ground arith

  pub write_u32-put :
      (v : ℕ) → offset + 4 ≤ length buf → write_u32 buf offset v ≡ ok (put offset (to_le 4 v) buf)
  unfolding write_u32 put_range
  write_u32-put v room = ground (arith, length-to_le 4 v)

  pub write_u64-put :
      (v : ℕ) → offset + 8 ≤ length buf → write_u64 buf offset v ≡ ok (put offset (to_le 8 v) buf)
  unfolding write_u64 put_range
  write_u64-put v room = ground (arith, length-to_le 8 v)

  pub write_i64-put :
      (p : ℤ)
      → offset + 8 ≤ length buf
      → write_i64 buf offset p ≡ ok (put offset (to_le 8 (word_of_ℤ p)) buf)
  unfolding write_i64 put_range
  write_i64-put p room = ground (arith, length-to_le 8 (word_of_ℤ p))
