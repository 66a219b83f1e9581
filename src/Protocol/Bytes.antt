-- ===== src/Protocol/Bytes.antt =====
-- src/protocol.rs: what its reads and writes use of byte slices and of little-endian numbers.
use ferrox.Prelude.{
  inr, length-replicate, replicate, ap, arith, if◌then◌else◌, inl, length, length-set, ltb, negsuc,
  pos, refl, set, suc, zero, ◌%◌, ◌+◌, ◌-◌, ◌/◌, ◌<◌, ◌∙◌, ◌∷◌, ◌*◌, ◌≡◌, ◌≢◌, ◌≤◌, ◌⊎◌, ℕ, ℤ, List,
  [],
}

-- The byte at an index that lies within the buffer.
abbrev pub byte : List ℕ → ℕ → ℕ
byte [] i = 0
byte (x ∷ xs) zero = x
byte (x ∷ xs) (suc i) = byte xs i

-- `n` bytes from an offset on, all within the buffer.
unfoldable pub slice : ℕ → ℕ → List ℕ → List ℕ
slice zero offset buf = []
slice (suc n) offset buf = byte buf offset ∷ slice n (suc offset) buf

-- Bytes written from an offset on, all within the buffer.
unfoldable pub put : ℕ → List ℕ → List ℕ → List ℕ
put offset [] buf = buf
put offset (b ∷ bytes) buf = put (suc offset) bytes (set buf offset b)

-- `buf[..n].fill(0)`
unfoldable pub zero_fill : ℕ → List ℕ → List ℕ
zero_fill n buf = put 0 (replicate n 0) buf

-- `to_le_bytes` and `from_le_bytes` of a number of `n` bytes
unfoldable pub to_le : ℕ → ℕ → List ℕ
to_le zero x = []
to_le (suc n) x = x % 256 ∷ to_le n (x / 256)

unfoldable pub from_le : List ℕ → ℕ
from_le [] = 0
from_le (b ∷ bytes) = b + 256 * from_le bytes

-- The `u64` that has the bits of an `i64`, and back.
abbrev pub word_of_ℤ : ℤ → ℕ
word_of_ℤ (pos n) = n
word_of_ℤ (negsuc n) = 18_446_744_073_709_551_615 - n

abbrev pub ℤ_of_word : ℕ → ℤ
ℤ_of_word x =
    if ltb x 9_223_372_036_854_775_808 then pos x else negsuc (18_446_744_073_709_551_615 - x)

-- The numbers of an `i64`.
abbrev pub IsI64 : ℤ → Type 0
IsI64 (pos n) = n < 9_223_372_036_854_775_808
IsI64 (negsuc n) = n < 9_223_372_036_854_775_808

-- The numbers of `n` bytes.
abbrev pub limit : ℕ → ℕ
limit zero = 1
limit (suc n) = 256 * limit n

pub from_le-to_le : (n x : ℕ) → x < limit n → from_le (to_le n x) ≡ x
unfolding from_le to_le
from_le-to_le zero x h = omega arith
from_le-to_le (suc n) x h = omega (arith, from_le-to_le n (x / 256) (omega arith))

pub length-to_le : (n x : ℕ) → length (to_le n x) ≡ n
unfolding to_le
length-to_le zero x = refl
length-to_le (suc n) x = ap suc (length-to_le n (x / 256))

pub ℤ_of_word-word_of_ℤ : (p : ℤ) → IsI64 p → ℤ_of_word (word_of_ℤ p) ≡ p
ℤ_of_word-word_of_ℤ (pos n) h = ground arith
ℤ_of_word-word_of_ℤ (negsuc n) h = ground arith

pub word_of_ℤ-lt : (p : ℤ) → IsI64 p → word_of_ℤ p < 18_446_744_073_709_551_616
word_of_ℤ-lt (pos n) h = omega arith
word_of_ℤ-lt (negsuc n) h = omega arith

pub length-put : (offset : ℕ) (bytes buf : List ℕ) → length (put offset bytes buf) ≡ length buf
unfolding put
length-put offset [] buf = refl
length-put offset (b ∷ bytes) buf =
    length-put (suc offset) bytes (set buf offset b) ∙ length-set buf offset b

byte-set_self : (buf : List ℕ) (i b : ℕ) → i < length buf → byte (set buf i b) i ≡ b
byte-set_self [] i b h = absurd (omega arith)
byte-set_self (x ∷ buf) zero b h = refl
byte-set_self (x ∷ buf) (suc i) b h = byte-set_self buf i b (omega arith)

byte-set_ne : (buf : List ℕ) (i j b : ℕ) → i ≢ j → byte (set buf i b) j ≡ byte buf j
byte-set_ne [] i j b h = refl
byte-set_ne (x ∷ buf) zero zero b h = absurd (h refl)
byte-set_ne (x ∷ buf) zero (suc j) b h = refl
byte-set_ne (x ∷ buf) (suc i) zero b h = refl
byte-set_ne (x ∷ buf) (suc i) (suc j) b h = byte-set_ne buf i j b (λ e. h (ap suc e))

-- A byte that is not written stays.
pub byte-put :
    (offset : ℕ) (bytes buf : List ℕ) (i : ℕ)
    → (i < offset) ⊎ (offset + length bytes ≤ i)
    → byte (put offset bytes buf) i ≡ byte buf i
unfolding put
byte-put offset [] buf i away = refl
byte-put offset (b ∷ bytes) buf i away =
    byte-put (suc offset) bytes (set buf offset b) i (ground arith)
    ∙ byte-set_ne buf offset i b (λ e. ground arith)

-- What lies beside the bytes written is read as before.
pub slice-put_ne :
    (n offset' offset : ℕ) (bytes buf : List ℕ)
    → (offset' + n ≤ offset) ⊎ (offset + length bytes ≤ offset')
    → slice n offset' (put offset bytes buf) ≡ slice n offset' buf
unfolding slice
slice-put_ne zero offset' offset bytes buf away = refl
slice-put_ne (suc n) offset' offset bytes buf away = cc (
  byte-put offset bytes buf offset' (ground arith),
  slice-put_ne n (suc offset') offset bytes buf (ground arith),
)

-- What was written is read again.
pub slice-put_self :
    (offset : ℕ) (bytes buf : List ℕ)
    → offset + length bytes ≤ length buf
    → slice (length bytes) offset (put offset bytes buf) ≡ bytes
unfolding slice put
slice-put_self offset [] buf room = refl
slice-put_self offset (b ∷ bytes) buf room = cc (
  byte-put (suc offset) bytes (set buf offset b) offset (inl (omega arith)),
  byte-set_self buf offset b (omega arith),
  slice-put_self (suc offset) bytes (set buf offset b) (omega (arith, length-set buf offset b)),
)

pub length-zero_fill : (n : ℕ) (buf : List ℕ) → length (zero_fill n buf) ≡ length buf
unfolding zero_fill
length-zero_fill n buf = length-put 0 (replicate n 0) buf

pub byte-zero_fill : (n : ℕ) (buf : List ℕ) (i : ℕ) → n ≤ i → byte (zero_fill n buf) i ≡ byte buf i
unfolding zero_fill
byte-zero_fill n buf i past =
    byte-put 0 (replicate n 0) buf i (inr (omega (arith, length-replicate {A = ℕ} n 0)))
