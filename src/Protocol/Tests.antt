-- ===== src/Protocol/Tests.antt =====
-- The theorems of the wire format at small messages.
use ferrox.Prelude.{
  Bool, ltb, pos, suc, zero, ◌&&◌, ◌++◌, ◌<◌, true, arith, negsuc, ok, refl, replicate, ◌∷◌, ◌≡◌, ℕ,
  List, [],
}
use ferrox.Order.{Order, ask}
use ferrox.Protocol.{
  decode_new_order, get_range, read_i64, read_u64, read_u8, decode_execution_report,
  encode_execution_report, cancel_order, decode_message, encode_new_order, new_order, put_range,
  write_u64, write_u8, encode_cancel_order,
}
use ferrox.Protocol.Bytes.{byte, from_le, slice, put, to_le, zero_fill}
use ferrox.Protocol.Codec.{
  IsEncoded, decode_message-encode_new_order, decode_message-encode_cancel_order,
}
use ferrox.Matching.{Fill}
use ferrox.Protocol.Report.{decode_execution_report-encode_execution_report, report_of}
use ferrox.Protocol.Decode.{IsCommand, decode_message-IsCommand}

abbrev buffer : List ℕ
buffer = replicate 48 7

abbrev order : Order
order = record {
  id = 513;
  trader_id = 9;
  side = ask;
  price = negsuc 4;
  quantity = 70_000;
  timestamp = 5;
}

decode_message-encode_new_order_example :
    (buf' : List ℕ) × (encode_new_order buffer order ≡ ok (40, buf'))
    × IsEncoded buffer 40 buf'
    × (decode_message buf' ≡ ok (new_order (record order { timestamp = 0 })))
decode_message-encode_new_order_example =
    decode_message-encode_new_order buffer order (omega arith)
      (record {
        id = omega arith;
        trader_id = omega arith;
        price = omega arith;
        quantity = omega arith;
      })
      (omega arith)

decode_message-encode_cancel_order_example :
    (buf' : List ℕ) × (encode_cancel_order buffer 513 ≡ ok (16, buf'))
    × IsEncoded buffer 16 buf'
    × (decode_message buf' ≡ ok (cancel_order 513))
decode_message-encode_cancel_order_example =
    decode_message-encode_cancel_order buffer 513 (omega arith) (omega arith)

-- The bytes of a cancellation.
cancel_bytes :
    encode_cancel_order (replicate 17 7) 513
    ≡ ok (16, 2 ∷ 0 ∷ 0 ∷ 0 ∷ 0 ∷ 0 ∷ 0 ∷ 0 ∷ 1 ∷ 2 ∷ 0 ∷ 0 ∷ 0 ∷ 0 ∷ 0 ∷ 0 ∷ 7 ∷ [])
unfolding encode_cancel_order write_u8 write_u64 put_range put to_le zero_fill
cancel_bytes = refl

abbrev fill : Fill
fill = record {
  taker_order_id = 4;
  maker_order_id = 513;
  price = negsuc 4;
  quantity = 70_000;
  maker_fully_filled = true;
}

decode_execution_report-encode_execution_report_example :
    (buf' : List ℕ) × (encode_execution_report buffer 3 fill 1_000 ≡ ok (48, buf'))
    × IsEncoded buffer 48 buf'
    × (decode_execution_report buf' ≡ ok (report_of 3 fill 1_000))
decode_execution_report-encode_execution_report_example =
    decode_execution_report-encode_execution_report buffer 3 fill 1_000 (omega arith) (record {
      seq_word = omega arith;
      taker_word = omega arith;
      maker_word = omega arith;
      price_word = omega arith;
      quantity_word = omega arith;
      timestamp_word = omega arith;
    })

abbrev pub are_bytes : List ℕ → Bool
are_bytes [] = true
are_bytes (b ∷ bytes) = ltb b 256 && are_bytes bytes

pub byte-are_bytes : (buf : List ℕ) → are_bytes buf ≡ true → (i : ℕ) → byte buf i < 256
byte-are_bytes [] e i = omega arith
byte-are_bytes (b ∷ buf) e zero = ground arith
byte-are_bytes (b ∷ buf) e (suc i) = byte-are_bytes buf (ground arith) i

-- An ask of 5 at the price 0.
abbrev message : List ℕ
message = 1 ∷ 1 ∷ (replicate 30 0 ++ (5 ∷ replicate 7 0))

abbrev ask_of_5 : Order
ask_of_5 = record { id = 0; trader_id = 0; side = ask; price = pos 0; quantity = 5; timestamp = 0 }

message_lem : decode_message message ≡ ok (new_order ask_of_5)
unfolding decode_message decode_new_order read_u8 read_u64 read_i64 get_range slice from_le
message_lem = refl

decode_message-IsCommand_example : IsCommand (new_order ask_of_5)
decode_message-IsCommand_example =
    decode_message-IsCommand message (byte-are_bytes message refl) (new_order ask_of_5) message_lem
