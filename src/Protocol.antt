-- ===== src/Protocol.antt =====
-- src/protocol.rs: the wire format of commands and reports. A buffer is a list of bytes. An error
-- carries no buffer: what is written is checked for its room first, so that an error leaves the
-- buffer as it was.
pub mod Access
pub mod Bytes
pub mod Codec
pub mod Decode
pub mod Report
pub mod Tests
use ferrox.Prelude.{
  Result, and_then, err, if◌then◌else◌, leb, length, ltb, ok, replicate, ◌+◌, ◌==◌, ◌∷◌, ℕ, ℤ, List,
  [],
}
use ferrox.Order.{Order, Side, bid, ask}
use ferrox.Matching.{Fill}
use ferrox.Protocol.Bytes.{zero_fill, slice, put, to_le, from_le, word_of_ℤ, ℤ_of_word, byte}

abbrev pub msg_new_order : ℕ
msg_new_order = 1

abbrev pub msg_cancel_order : ℕ
msg_cancel_order = 2

abbrev pub msg_execution_report : ℕ
msg_execution_report = 3

abbrev pub new_order_size : ℕ
new_order_size = 40

abbrev pub cancel_order_size : ℕ
cancel_order_size = 16

abbrev pub execution_report_size : ℕ
execution_report_size = 48

pub data EngineCommand : Type 0 where
  new_order : Order → EngineCommand
  cancel_order : (order_id : ℕ) → EngineCommand

pub record ExecutionReport : Type 0 where
  pub seq_num : ℕ
  pub taker_order_id : ℕ
  pub maker_order_id : ℕ
  pub price : ℤ
  pub quantity : ℕ
  pub timestamp : ℕ

pub data ProtocolError : Type 0 where
  buffer_too_short : ProtocolError
  unknown_message_type : ℕ → ProtocolError
  invalid_side : ℕ → ProtocolError
  zero_quantity : ProtocolError

-- `buf.get(offset..offset + n)`
unfoldable pub get_range : List ℕ → (offset n : ℕ) → Result ProtocolError (List ℕ)
get_range buf offset n =
    if leb (offset + n) (length buf) then ok (slice n offset buf) else err buffer_too_short

unfoldable pub read_u8 : List ℕ → ℕ → Result ProtocolError ℕ
read_u8 buf offset = if ltb offset (length buf) then ok (byte buf offset) else err buffer_too_short

unfoldable pub read_u32 : List ℕ → ℕ → Result ProtocolError ℕ
read_u32 buf offset = and_then (get_range buf offset 4) (λ bytes. ok (from_le bytes))

unfoldable pub read_u64 : List ℕ → ℕ → Result ProtocolError ℕ
read_u64 buf offset = and_then (get_range buf offset 8) (λ bytes. ok (from_le bytes))

unfoldable pub read_i64 : List ℕ → ℕ → Result ProtocolError ℤ
read_i64 buf offset = and_then (get_range buf offset 8) (λ bytes. ok (ℤ_of_word (from_le bytes)))

-- `buf.get_mut(offset..offset + n)` and `copy_from_slice`
unfoldable pub put_range : List ℕ → ℕ → List ℕ → Result ProtocolError (List ℕ)
put_range buf offset bytes =
    if leb (offset + length bytes) (length buf)
    then ok (put offset bytes buf)
    else err buffer_too_short

unfoldable pub write_u8 : List ℕ → (offset val : ℕ) → Result ProtocolError (List ℕ)
write_u8 buf offset val = put_range buf offset (val ∷ [])

unfoldable pub write_u32 : List ℕ → (offset val : ℕ) → Result ProtocolError (List ℕ)
write_u32 buf offset val = put_range buf offset (to_le 4 val)

unfoldable pub write_u64 : List ℕ → (offset val : ℕ) → Result ProtocolError (List ℕ)
write_u64 buf offset val = put_range buf offset (to_le 8 val)

unfoldable pub write_i64 : List ℕ → ℕ → ℤ → Result ProtocolError (List ℕ)
write_i64 buf offset val = put_range buf offset (to_le 8 (word_of_ℤ val))

abbrev pub decode_side : ℕ → Result ProtocolError Side
decode_side val = if val == 0 then ok bid else (if val == 1 then ok ask else err (invalid_side val))

abbrev pub encode_side : Side → ℕ
encode_side bid = 0
encode_side ask = 1

unfoldable pub decode_new_order : List ℕ → Result ProtocolError Order
decode_new_order buf =
    if ltb (length buf) new_order_size
    then err buffer_too_short
    else (and_then (read_u8 buf 1) λ side_byte. and_then (decode_side side_byte) λ side.
        and_then (read_u64 buf 8) λ order_id. and_then (read_u64 buf 16) λ trader_id.
          and_then (read_i64 buf 24) λ price. and_then (read_u64 buf 32) λ quantity.
            if quantity == 0
            then err zero_quantity
            else ok (record {
              id = order_id;
              trader_id = trader_id;
              side = side;
              price = price;
              quantity = quantity;
              timestamp = 0;
            }))

-- An encoder returns the size and the buffer it leaves.
unfoldable pub encode_new_order : List ℕ → Order → Result ProtocolError (ℕ × List ℕ)
encode_new_order buf order =
    if ltb (length buf) new_order_size
    then err buffer_too_short
    else (and_then (write_u8 (zero_fill new_order_size buf) 0 msg_new_order) λ buf.
        and_then (write_u8 buf 1 (encode_side order.side)) λ buf.
          and_then (write_u64 buf 8 order.id) λ buf.
            and_then (write_u64 buf 16 order.trader_id) λ buf.
              and_then (write_i64 buf 24 order.price)
                λ buf. and_then (write_u64 buf 32 order.quantity) λ buf. ok (new_order_size, buf))

unfoldable pub decode_cancel_order : List ℕ → Result ProtocolError ℕ
decode_cancel_order buf =
    if ltb (length buf) cancel_order_size then err buffer_too_short else read_u64 buf 8

unfoldable pub encode_cancel_order : List ℕ → ℕ → Result ProtocolError (ℕ × List ℕ)
encode_cancel_order buf order_id =
    if ltb (length buf) cancel_order_size
    then err buffer_too_short
    else (and_then (write_u8 (zero_fill cancel_order_size buf) 0 msg_cancel_order)
        λ buf. and_then (write_u64 buf 8 order_id) λ buf. ok (cancel_order_size, buf))

unfoldable pub decode_message : List ℕ → Result ProtocolError EngineCommand
decode_message buf = and_then (read_u8 buf 0) λ msg_type.
    if msg_type == msg_new_order
    then and_then (decode_new_order buf) (λ order. ok (new_order order))
    else (if msg_type == msg_cancel_order
        then and_then (decode_cancel_order buf) (λ order_id. ok (cancel_order order_id))
        else err (unknown_message_type msg_type))

unfoldable pub message_size : ℕ → Result ProtocolError ℕ
message_size msg_type =
    if msg_type == msg_new_order
    then ok new_order_size
    else (if msg_type == msg_cancel_order
        then ok cancel_order_size
        else err (unknown_message_type msg_type))

unfoldable pub encode_execution_report :
    List ℕ → (seq_num : ℕ) → Fill → (timestamp : ℕ) → Result ProtocolError (ℕ × List ℕ)
encode_execution_report buf seq_num fill timestamp =
    if ltb (length buf) execution_report_size
    then err buffer_too_short
    else (and_then (write_u8 (zero_fill execution_report_size buf) 0 msg_execution_report) λ buf.
        and_then (write_u32 buf 4 seq_num) λ buf.
          and_then (write_u64 buf 8 fill.taker_order_id) λ buf.
            and_then (write_u64 buf 16 fill.maker_order_id) λ buf.
              and_then (write_i64 buf 24 fill.price) λ buf.
                and_then (write_u64 buf 32 fill.quantity) λ buf.
                  and_then (write_u64 buf 40 timestamp) λ buf. ok (execution_report_size, buf))

unfoldable pub decode_execution_report : List ℕ → Result ProtocolError ExecutionReport
decode_execution_report buf =
    if ltb (length buf) execution_report_size
    then err buffer_too_short
    else (and_then (read_u32 buf 4) λ seq_num. and_then (read_u64 buf 8) λ taker_order_id.
        and_then (read_u64 buf 16) λ maker_order_id. and_then (read_i64 buf 24) λ price.
          and_then (read_u64 buf 32) λ quantity. and_then (read_u64 buf 40) λ timestamp.
            ok (record {
              seq_num = seq_num;
              taker_order_id = taker_order_id;
              maker_order_id = maker_order_id;
              price = price;
              quantity = quantity;
              timestamp = timestamp;
            }))
