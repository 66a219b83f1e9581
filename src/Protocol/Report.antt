-- ===== src/Protocol/Report.antt =====
-- src/protocol.rs: execution reports, encoded for the subscribers and decoded by them.
use ferrox.Prelude.{
  arith, drop, false, length, ltb, ok, refl, take, ◌<◌, ◌∷◌, ◌≡◌, ◌≤◌, ℕ, List, [],
}
use ferrox.Matching.{Fill}
use ferrox.Protocol.{
  execution_report_size, msg_execution_report, ExecutionReport, encode_execution_report,
  decode_execution_report,
}
use ferrox.Protocol.Bytes.{IsI64, length-to_le, length-zero_fill, to_le, word_of_ℤ, zero_fill}
use ferrox.Protocol.Access.{
  length-put_all, read_i64-field, read_u32-field, read_u64-field, write_i64-put, write_u32-put,
  write_u64-put, write_u8-put, put_all,
}
use ferrox.Protocol.Codec.{IsEncoded, IsEncoded-put_all}

-- The numbers of a report are those of their machine types.
pub record IsWideReport (seq_num : ℕ) (fill : Fill) (timestamp : ℕ) : Type 0 where
  pub seq_word : seq_num < 4_294_967_296
  pub taker_word : fill.taker_order_id < 18_446_744_073_709_551_616
  pub maker_word : fill.maker_order_id < 18_446_744_073_709_551_616
  pub price_word : IsI64 fill.price
  pub quantity_word : fill.quantity < 18_446_744_073_709_551_616
  pub timestamp_word : timestamp < 18_446_744_073_709_551_616

-- What a subscriber learns of a fill.
abbrev pub report_of : (seq_num : ℕ) → Fill → (timestamp : ℕ) → ExecutionReport
report_of seq_num fill timestamp = record {
  seq_num = seq_num;
  taker_order_id = fill.taker_order_id;
  maker_order_id = fill.maker_order_id;
  price = fill.price;
  quantity = fill.quantity;
  timestamp = timestamp;
}

module _ (buf : List ℕ) (seq_num : ℕ) (fill : Fill) (timestamp : ℕ)
    (room : execution_report_size ≤ length buf) where
  abbrev report_fields : List (ℕ × List ℕ)
  report_fields =
      (0, msg_execution_report ∷ [])
      ∷ (4, to_le 4 seq_num)
      ∷ (8, to_le 8 fill.taker_order_id)
      ∷ (16, to_le 8 fill.maker_order_id)
      ∷ (24, to_le 8 (word_of_ℤ fill.price))
      ∷ (32, to_le 8 fill.quantity)
      ∷ (40, to_le 8 timestamp)
      ∷ []

  -- The buffer after the first writes of `encode_execution_report`.
  abbrev written : ℕ → List ℕ
  written n = put_all (take n report_fields) (zero_fill execution_report_size buf)

  written_room : (n : ℕ) → 48 ≤ length (written n)
  written_room n = omega (
    arith,
    length-put_all (take n report_fields) (zero_fill execution_report_size buf),
    length-zero_fill execution_report_size buf,
  )

  encode_execution_report-put_all :
      encode_execution_report buf seq_num fill timestamp ≡ ok (execution_report_size, written 7)
  unfolding encode_execution_report
  encode_execution_report-put_all =
      let fits : ltb (length buf) execution_report_size ≡ false = ground arith in
      rw
        (
          fits,
          write_u8-put (written 0) 0 msg_execution_report (omega (arith, written_room 0)),
          write_u32-put (written 1) 4 seq_num (omega (arith, written_room 1)),
          write_u64-put (written 2) 8 fill.taker_order_id (omega (arith, written_room 2)),
          write_u64-put (written 3) 16 fill.maker_order_id (omega (arith, written_room 3)),
          write_i64-put (written 4) 24 fill.price (omega (arith, written_room 4)),
          write_u64-put (written 5) 32 fill.quantity (omega (arith, written_room 5)),
          write_u64-put (written 6) 40 timestamp (omega (arith, written_room 6)),
        )
        refl

  decode_execution_report-written :
      IsWideReport seq_num fill timestamp
      → decode_execution_report (written 7) ≡ ok (report_of seq_num fill timestamp)
  unfolding decode_execution_report
  decode_execution_report-written wide =
      let enough : ltb (length (written 7)) execution_report_size ≡ false =
        ground (arith, written_room 7) in
      let behind : ℕ → List (ℕ × List ℕ) = λ n. drop n report_fields in
      rw
        (
          enough,
          read_u32-field 4 (behind 2) (written 1) seq_num wide.seq_word
              (omega (arith, written_room 1))
              (omega arith, (omega arith, (omega arith, (omega arith, (omega arith, tt))))),
          read_u64-field 8 (behind 3) (written 2) fill.taker_order_id wide.taker_word
              (omega (arith, written_room 2))
              (omega arith, (omega arith, (omega arith, (omega arith, tt)))),
          read_u64-field 16 (behind 4) (written 3) fill.maker_order_id wide.maker_word
              (omega (arith, written_room 3)) (omega arith, (omega arith, (omega arith, tt))),
          read_i64-field 24 (behind 5) (written 4) fill.price wide.price_word
              (omega (arith, written_room 4)) (omega arith, (omega arith, tt)),
          read_u64-field 32 (behind 6) (written 5) fill.quantity wide.quantity_word
              (omega (arith, written_room 5)) (omega arith, tt),
          read_u64-field 40 [] (written 6) timestamp wide.timestamp_word
              (omega (arith, written_room 6)) tt,
        )
        refl

  -- In a buffer with room, the encoded report of a fill, whose numbers are of their machine types,
  -- is decoded to its sequence number, the fields of the fill and the timestamp, and no byte behind
  -- the message is touched.
  pub decode_execution_report-encode_execution_report :
      IsWideReport seq_num fill timestamp
      → (buf' : List ℕ) × (encode_execution_report buf seq_num fill timestamp
          ≡ ok (execution_report_size, buf'))
        × IsEncoded buf execution_report_size buf'
        × (decode_execution_report buf' ≡ ok (report_of seq_num fill timestamp))
  decode_execution_report-encode_execution_report wide =
      let quad : (v : ℕ) → length (to_le 8 v) ≡ 8 = length-to_le 8 in
      (
        written 7,
        encode_execution_report-put_all,
        IsEncoded-put_all execution_report_size report_fields buf (
          omega arith,
          (
            omega (arith, length-to_le 4 seq_num),
            (
              omega (arith, quad fill.taker_order_id),
              (
                omega (arith, quad fill.maker_order_id),
                (
                  omega (arith, quad (word_of_ℤ fill.price)),
                  (omega (arith, quad fill.quantity), (omega (arith, quad timestamp), tt)),
                ),
              ),
            ),
          ),
        ),
        decode_execution_report-written wide,
      )
