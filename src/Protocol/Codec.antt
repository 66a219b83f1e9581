-- ===== src/Protocol/Codec.antt =====
-- src/protocol.rs: what an encoder writes, its decoder reads again.
use ferrox.Prelude.{
  drop, take, ◌==◌, arith, false, inr, length, ltb, ok, refl, ◌+◌, ◌<◌, ◌∙◌, ◌∷◌, ◌≡◌, ◌≤◌, ℕ, List,
  [],
}
use ferrox.Order.{Side, ask, bid, Order}
use ferrox.Protocol.{
  decode_new_order, decode_side, encode_side, msg_new_order, new_order, new_order_size,
  cancel_order, cancel_order_size, decode_cancel_order, msg_cancel_order, encode_new_order,
  decode_message, encode_cancel_order,
}
use ferrox.Protocol.Bytes.{
  IsI64, word_of_ℤ, byte, byte-put, byte-zero_fill, length-put, length-to_le, length-zero_fill,
  to_le, zero_fill, put,
}
use ferrox.Protocol.Access.{
  read_i64-field, write_i64-put, length-put_all, read_u64-field, read_u8-field, write_u64-put,
  write_u8-put, put_all,
}

-- What an encoder leaves: a buffer of the same length, with the bytes behind the message kept.
pub record IsEncoded (buf : List ℕ) (size : ℕ) (buf' : List ℕ) : Type 0 where
  pub long : length buf' ≡ length buf
  pub kept : (i : ℕ) → size ≤ i → byte buf' i ≡ byte buf i

-- Fields within the first `size` bytes.
abbrev pub Within : ℕ → List (ℕ × List ℕ) → Type 0
Within size [] = Unit
Within size ((offset, bytes) ∷ fields) = (offset + length bytes ≤ size) × Within size fields

pub IsEncoded-put_all :
    (size : ℕ) (fields : List (ℕ × List ℕ)) (buf : List ℕ)
    → Within size fields
    → IsEncoded buf size (put_all fields (zero_fill size buf))
IsEncoded-put_all size fields buf inside = record {
  long = length-put_all fields (zero_fill size buf) ∙ length-zero_fill size buf;
  kept = λ i past. go i past fields (zero_fill size buf) inside ∙ byte-zero_fill size buf i past;
}
  where
    go :
        (i : ℕ)
        → size ≤ i
        → (fields : List (ℕ × List ℕ)) (b : List ℕ) → Within size fields
        → byte (put_all fields b) i ≡ byte b i
    go i past [] b inside = refl
    go i past ((offset, bytes) ∷ fields) b inside =
        go i past fields (put offset bytes b) inside.1
        ∙ byte-put offset bytes b i (inr (omega (arith, inside.0)))

-- The fields of the messages.
abbrev pub cancel_fields : ℕ → List (ℕ × List ℕ)
cancel_fields order_id = (0, msg_cancel_order ∷ []) ∷ (8, to_le 8 order_id) ∷ []

pub encode_cancel_order-put_all :
    (buf : List ℕ) (order_id : ℕ)
    → cancel_order_size ≤ length buf
    → encode_cancel_order buf order_id
      ≡ ok (cancel_order_size, put_all (cancel_fields order_id) (zero_fill cancel_order_size buf))
unfolding encode_cancel_order
encode_cancel_order-put_all buf order_id room =
    let fits : ltb (length buf) cancel_order_size ≡ false = ground arith in
    let b0 : List ℕ = zero_fill cancel_order_size buf in
    let l0 = length-zero_fill cancel_order_size buf in
    let b1 : List ℕ = put 0 (msg_cancel_order ∷ []) b0 in
    let l1 = length-put 0 (msg_cancel_order ∷ []) b0 in
    rw
      (
        fits,
        write_u8-put b0 0 msg_cancel_order (omega arith),
        write_u64-put b1 8 order_id (omega arith),
      )
      refl

-- In a buffer with room, the encoded cancellation of a `u64` id is decoded to that cancellation, and
-- no byte behind it is touched.
pub decode_message-encode_cancel_order :
    (buf : List ℕ) (order_id : ℕ)
    → cancel_order_size ≤ length buf
    → order_id < 18_446_744_073_709_551_616
    → (buf' : List ℕ) × (encode_cancel_order buf order_id ≡ ok (cancel_order_size, buf'))
      × IsEncoded buf cancel_order_size buf'
      × (decode_message buf' ≡ ok (cancel_order order_id))
unfolding decode_message decode_cancel_order
decode_message-encode_cancel_order buf order_id room word =
    let b0 : List ℕ = zero_fill cancel_order_size buf in
    let l0 = length-zero_fill cancel_order_size buf in
    let b1 : List ℕ = put 0 (msg_cancel_order ∷ []) b0 in
    let l1 = length-put 0 (msg_cancel_order ∷ []) b0 in
    let b2 : List ℕ = put 8 (to_le 8 order_id) b1 in
    let l2 = length-put 8 (to_le 8 order_id) b1 in
    let enough : ltb (length b2) cancel_order_size ≡ false = ground arith in
    (
      b2,
      encode_cancel_order-put_all buf order_id room,
      IsEncoded-put_all cancel_order_size (cancel_fields order_id) buf
          (omega arith, (omega (arith, length-to_le 8 order_id), tt)),
      rw
          (read_u8-field 0 ((8, to_le 8 order_id) ∷ []) b0 msg_cancel_order (omega arith)
            (omega arith, tt))
          (rw (enough, read_u64-field 8 [] b1 order_id word (omega arith) tt) refl),
    )

abbrev order_fields : Order → List (ℕ × List ℕ)
order_fields order =
    (0, msg_new_order ∷ [])
    ∷ (1, encode_side order.side ∷ [])
    ∷ (8, to_le 8 order.id)
    ∷ (16, to_le 8 order.trader_id)
    ∷ (24, to_le 8 (word_of_ℤ order.price))
    ∷ (32, to_le 8 order.quantity)
    ∷ []

-- The numbers of an order are those of their machine types.
pub record IsWide (order : Order) : Type 0 where
  pub id : order.id < 18_446_744_073_709_551_616
  pub trader_id : order.trader_id < 18_446_744_073_709_551_616
  pub price : IsI64 order.price
  pub quantity : order.quantity < 18_446_744_073_709_551_616

decode_side-encode_side : (side : Side) → decode_side (encode_side side) ≡ ok side
decode_side-encode_side bid = refl
decode_side-encode_side ask = refl

-- The buffer after the first writes of `encode_new_order`.
module _ (buf : List ℕ) (order : Order) (room : new_order_size ≤ length buf) where
  abbrev pub after : ℕ → List ℕ
  after n = put_all (take n (order_fields order)) (zero_fill new_order_size buf)

  pub length-after : (n : ℕ) → length (after n) ≡ length buf
  length-after n =
      length-put_all (take n (order_fields order)) (zero_fill new_order_size buf)
      ∙ length-zero_fill new_order_size buf

  after_room : (n : ℕ) → 40 ≤ length (after n)
  after_room n = omega (arith, length-after n)

  pub encode_new_order-put_all : encode_new_order buf order ≡ ok (new_order_size, after 6)
  unfolding encode_new_order
  encode_new_order-put_all =
      let fits : ltb (length buf) new_order_size ≡ false = ground arith in
      rw
        (
          fits,
          write_u8-put (after 0) 0 msg_new_order (omega (arith, after_room 0)),
          write_u8-put (after 1) 1 (encode_side order.side) (omega (arith, after_room 1)),
          write_u64-put (after 2) 8 order.id (omega (arith, after_room 2)),
          write_u64-put (after 3) 16 order.trader_id (omega (arith, after_room 3)),
          write_i64-put (after 4) 24 order.price (omega (arith, after_room 4)),
          write_u64-put (after 5) 32 order.quantity (omega (arith, after_room 5)),
        )
        refl

  decode_new_order-after :
      IsWide order
      → 0 < order.quantity
      → decode_new_order (after 6) ≡ ok (record order { timestamp = 0 })
  unfolding decode_new_order
  decode_new_order-after wide some_quantity =
      let enough : ltb (length (after 6)) new_order_size ≡ false = ground (arith, after_room 6) in
      let nonzero : (order.quantity == 0) ≡ false = ground arith in
      let behind : ℕ → List (ℕ × List ℕ) = λ n. drop n (order_fields order) in
      rw
        (
          enough,
          read_u8-field 1 (behind 2) (after 1) (encode_side order.side)
              (omega (arith, after_room 1))
              (omega arith, (omega arith, (omega arith, (omega arith, tt)))),
          decode_side-encode_side order.side,
          read_u64-field 8 (behind 3) (after 2) order.id wide.id (omega (arith, after_room 2))
              (omega arith, (omega arith, (omega arith, tt))),
          read_u64-field 16 (behind 4) (after 3) order.trader_id wide.trader_id
              (omega (arith, after_room 3)) (omega arith, (omega arith, tt)),
          read_i64-field 24 (behind 5) (after 4) order.price wide.price
              (omega (arith, after_room 4)) (omega arith, tt),
          read_u64-field 32 [] (after 5) order.quantity wide.quantity (omega (arith, after_room 5))
              tt,
          nonzero,
        )
        refl

-- In a buffer with room, an encoded order, whose numbers are of their machine types and whose
-- quantity is positive, is decoded to that order with the timestamp 0, and no byte behind the
-- message is touched.
pub decode_message-encode_new_order :
    (buf : List ℕ) (order : Order)
    → new_order_size ≤ length buf
    → IsWide order
    → 0 < order.quantity
    → (buf' : List ℕ) × (encode_new_order buf order ≡ ok (new_order_size, buf'))
      × IsEncoded buf new_order_size buf'
      × (decode_message buf' ≡ ok (new_order (record order { timestamp = 0 })))
unfolding decode_message
decode_message-encode_new_order buf order room wide some_quantity = (
  after buf order room 6,
  encode_new_order-put_all buf order room,
  IsEncoded-put_all new_order_size (order_fields order) buf (
    omega arith,
    (
      omega arith,
      (
        omega (arith, length-to_le 8 order.id),
        (
          omega (arith, length-to_le 8 order.trader_id),
          (
            omega (arith, length-to_le 8 (word_of_ℤ order.price)),
            (omega (arith, length-to_le 8 order.quantity), tt),
          ),
        ),
      ),
    ),
  ),
  rw
      (
        read_u8-field 0 (drop 1 (order_fields order)) (after buf order room 0) msg_new_order
            (omega (arith, after_room buf order room 0))
            (omega arith, (omega arith, (omega arith, (omega arith, (omega arith, tt))))),
        decode_new_order-after buf order room wide some_quantity,
      )
      refl,
)
