-- ===== src/Wal/Encode.antt =====
-- The payload of a command: what the log writes of it, and what is read again.
use native.Mathlib.Nat.{zero-add}
use ferrox.Prelude.{
  Bool-cases, Result, and_then, err, inl, inr, ltb, sym, true, ◌==◌, ◌≢◌, ap, arith, length, ok,
  refl, suc, zero, ◌+◌, ◌<◌, ◌∙◌, ◌∷◌, ◌≡◌, ◌≤◌, ℕ, List, [],
}
use ferrox.Order.{Order}
use ferrox.Protocol.{
  ProtocolError, EngineCommand, new_order, cancel_order, decode_message, decode_new_order,
  decode_cancel_order, read_u8, read_u64, get_range,
}
use ferrox.Protocol.Bytes.{length-zero_fill, zero_fill, slice, byte}
use ferrox.Protocol.Codec.{
  after, cancel_fields, encode_cancel_order-put_all, encode_new_order-put_all, length-after, IsWide,
  decode_message-encode_new_order, decode_message-encode_cancel_order,
}
use ferrox.Wal.{encode_command}
use ferrox.Wal.Slices.{slice-cons, length-slice}
use ferrox.Protocol.Access.{length-put_all, put_all}

-- The timestamp of an order is not on the wire.
abbrev pub logged : EngineCommand → EngineCommand
logged (new_order order) = new_order (record order { timestamp = 0 })
logged (cancel_order order_id) = cancel_order order_id

-- The numbers of a command are those of their machine types, and an order has a quantity.
abbrev pub IsLoggable : EngineCommand → Type 0
IsLoggable (new_order order) = IsWide order × (0 < order.quantity)
IsLoggable (cancel_order order_id) = order_id < 18_446_744_073_709_551_616

slice_whole : (buf : List ℕ) (n : ℕ) → length buf ≡ n → slice n 0 buf ≡ buf
unfolding slice
slice_whole [] zero e = refl
slice_whole [] (suc n) e = absurd (omega arith)
slice_whole (b ∷ buf) zero e = absurd (omega arith)
slice_whole (b ∷ buf) (suc n) e =
    ap (λ zs. b ∷ zs) (slice-cons n 0 b buf ∙ slice_whole buf n (omega arith))

byte-slice : (n i o : ℕ) (buf : List ℕ) → i < n → byte (slice n o buf) i ≡ byte buf (o + i)
unfolding slice
byte-slice zero i o buf h = absurd (omega arith)
byte-slice (suc n) zero o buf h = ap (byte buf) (omega arith)
byte-slice (suc n) (suc i) o buf h =
    byte-slice n i (suc o) buf (omega arith) ∙ ap (byte buf) (omega arith)

slice-slice : (m o n : ℕ) (buf : List ℕ) → o + m ≤ n → slice m o (slice n 0 buf) ≡ slice m o buf
unfolding slice
slice-slice zero o n buf h = refl
slice-slice (suc m) o n buf h = cc (
  byte-slice n o 0 buf (omega arith),
  slice-slice m (suc o) n buf (omega arith),
  ap (byte buf) (zero-add o),
)

not_cancel :
    (m : Result ProtocolError Order) (id : ℕ)
    → and_then m (λ order. ok (new_order order)) ≢ ok (cancel_order id)
not_cancel (ok order) id e = cc
not_cancel (err x) id e = cc

-- A cancellation is decoded from its first 16 bytes alone.
cancel_prefix :
    (buf : List ℕ) (id : ℕ)
    → 16 ≤ length buf
    → decode_message buf ≡ ok (cancel_order id)
    → decode_message (slice 16 0 buf) ≡ ok (cancel_order id)
unfolding decode_message decode_cancel_order read_u8 read_u64 get_range
cancel_prefix buf id room e =
    let first = byte-slice 16 0 0 buf (omega arith) in
    let word = slice-slice 8 8 16 buf (omega arith) in
    let size = length-slice 16 0 buf in
    elim (Bool-cases (byte buf 0 == 1)) [
      | inl order ↦
          let run : decode_message buf
              ≡ and_then (decode_new_order buf) (λ order. ok (new_order order)) =
            let some_byte : ltb 0 (length buf) ≡ true = ground arith in rw (some_byte, order) in
          absurd (not_cancel (decode_new_order buf) id (sym run ∙ e))
      | inr other ↦ ground arith
    ]

module _ (buf : List ℕ) (cmd : EngineCommand) where
  -- What the encoder leaves of any command in the buffer of the log.
  pub record IsWritten : Type 0 where
    pub size : ℕ
    pub left : List ℕ
    pub encoded : encode_command buf cmd ≡ ok (size, left)
    pub left_size : length left ≡ 40
    pub some_bytes : 0 < size
    pub within : size ≤ 40

  -- The payload in it, which is read again.
  pub record IsPayload : Type 0 where
    pub written : IsWritten
    pub decoded : decode_message (slice written.size 0 written.left) ≡ ok (logged cmd)

-- No command fails to be encoded.
pub encode_command-IsWritten :
    (buf : List ℕ) (cmd : EngineCommand) → length buf ≡ 40 → IsWritten buf cmd
unfolding encode_command
encode_command-IsWritten buf (new_order order) room = record {
  size = 40;
  left = after buf order (omega arith) 6;
  encoded = encode_new_order-put_all buf order (omega arith);
  left_size = length-after buf order (omega arith) 6 ∙ room;
  some_bytes = omega arith;
  within = omega arith;
}
encode_command-IsWritten buf (cancel_order id) room = record {
  size = 16;
  left = put_all (cancel_fields id) (zero_fill 16 buf);
  encoded = encode_cancel_order-put_all buf id (omega arith);
  left_size = length-put_all (cancel_fields id) (zero_fill 16 buf) ∙ length-zero_fill 16 buf ∙ room;
  some_bytes = omega arith;
  within = omega arith;
}

pub encode_command-IsPayload :
    (buf : List ℕ) (cmd : EngineCommand) → length buf ≡ 40 → IsLoggable cmd → IsPayload buf cmd
unfolding encode_command
encode_command-IsPayload buf (new_order order) room (wide, some_quantity) =
    let (left, run, made, back) =
      decode_message-encode_new_order buf order (omega arith) wide some_quantity in
    let n = made.long in
    record {
      written = record {
        size = 40;
        left = left;
        encoded = run;
        left_size = omega arith;
        some_bytes = omega arith;
        within = omega arith;
      };
      decoded = ap decode_message (slice_whole left 40 (omega arith)) ∙ back;
    }
encode_command-IsPayload buf (cancel_order id) room word =
    let (left, run, made, back) = decode_message-encode_cancel_order buf id (omega arith) word in
    let n = made.long in
    record {
      written = record {
        size = 16;
        left = left;
        encoded = run;
        left_size = omega arith;
        some_bytes = omega arith;
        within = omega arith;
      };
      decoded = cancel_prefix left id (omega arith) back;
    }
