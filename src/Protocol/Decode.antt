-- ===== src/Protocol/Decode.antt =====
-- src/protocol.rs: what the decoder lets through of the bytes of a client.
use mathlib.Core.Path.{subst}
use ferrox.Prelude.{
  Bool-cases, Result, and_then, arith, err, inl, inr, leb, length, ltb, ok, suc, zero, ◌+◌, ◌<◌,
  ◌==◌, ◌≡◌, ℕ, List,
}
use ferrox.Order.{Order}
use ferrox.Protocol.{
  cancel_order, decode_cancel_order, decode_side, get_range, msg_cancel_order, msg_new_order,
  new_order, new_order_size, read_i64, read_u8, EngineCommand, ProtocolError, decode_message,
  decode_new_order, read_u64,
}
use ferrox.Protocol.Bytes.{from_le, limit, slice, byte}

-- A predicate of what is returned, where it is no error.
abbrev Sound : {A : Type 0} → (A → Type 0) → Result ProtocolError A → Type 0
Sound P (ok a) = P a
Sound P (err e) = Unit

abbrev Whatever : {A : Type 0} → A → Type 0
Whatever a = Unit

module _ {A B : Type 0} (P : A → Type 0) (Q : B → Type 0) (f : A → Result ProtocolError B) where
  and_then-Sound :
      (m : Result ProtocolError A)
      → Sound P m
      → ((a : A) → P a → Sound Q (f a))
      → Sound Q (and_then m f)
  and_then-Sound (ok a) p next = next a p
  and_then-Sound (err e) p next = tt

any : {A : Type 0} (m : Result ProtocolError A) → Sound Whatever m
any (ok a) = tt
any (err e) = tt

-- An order that the engine takes: of a positive `u64` quantity.
abbrev pub IsTaken : Order → Type 0
IsTaken order = (0 < order.quantity) × (order.quantity < 18_446_744_073_709_551_616)

abbrev pub IsCommand : EngineCommand → Type 0
IsCommand (new_order order) = IsTaken order
IsCommand (cancel_order id) = Unit

module _ (buf : List ℕ) (bytes : (i : ℕ) → byte buf i < 256) where
  from_le-slice_lt : (n offset : ℕ) → from_le (slice n offset buf) < limit n
  unfolding from_le slice
  from_le-slice_lt zero offset = omega arith
  from_le-slice_lt (suc n) offset = omega (arith, bytes offset, from_le-slice_lt n (suc offset))

  read_u64-Sound :
      (offset : ℕ) → Sound (λ (v : ℕ). v < 18_446_744_073_709_551_616) (read_u64 buf offset)
  unfolding read_u64 get_range
  read_u64-Sound offset = elim (Bool-cases (leb (offset + 8) (length buf))) [
    | inl room ↦ rw room (from_le-slice_lt 8 offset)
    | inr short ↦ rw short tt
  ]

  decode_new_order-Sound : Sound IsTaken (decode_new_order buf)
  unfolding decode_new_order
  decode_new_order-Sound = elim (Bool-cases (ltb (length buf) new_order_size)) [
    | inl short ↦ rw short tt
    | inr enough ↦ rw enough (
        and_then-Sound Whatever IsTaken _ (read_u8 buf 1) (any _) λ side_byte _.
          and_then-Sound Whatever IsTaken _ (decode_side side_byte) (any _) λ side _.
            and_then-Sound Whatever IsTaken _ (read_u64 buf 8) (any _) λ order_id _.
              and_then-Sound Whatever IsTaken _ (read_u64 buf 16) (any _) λ trader_id _.
                and_then-Sound Whatever IsTaken _ (read_i64 buf 24) (any _) λ price _.
                  and_then-Sound (λ (v : ℕ). v < 18_446_744_073_709_551_616) IsTaken _
                    (read_u64 buf 32) (read_u64-Sound 32)
                    λ quantity word. elim (Bool-cases (quantity == 0)) [
                      | inl none_left ↦ rw none_left tt
                      | inr some_left ↦ rw some_left (ground arith, word)
                    ])
  ]

  decode_message-Sound : Sound IsCommand (decode_message buf)
  unfolding decode_message
  decode_message-Sound = and_then-Sound Whatever IsCommand _ (read_u8 buf 0) (any _) λ msg_type _.
      elim (Bool-cases (msg_type == msg_new_order)) [
        | inl new ↦ rw new (
            and_then-Sound IsTaken IsCommand _ (decode_new_order buf) decode_new_order-Sound
              λ order taken. taken)
        | inr other ↦ rw other (elim (Bool-cases (msg_type == msg_cancel_order)) [
          | inl cancels ↦
              rw cancels
                (and_then-Sound Whatever IsCommand _ (decode_cancel_order buf) (any _) λ id _. tt)
          | inr unknown ↦ rw unknown tt
        ])
      ]

  -- Of any bytes, the decoder makes an error or a command that the engine takes: a cancellation, or
  -- an order of a positive `u64` quantity.
  pub decode_message-IsCommand : (cmd : EngineCommand) → decode_message buf ≡ ok cmd → IsCommand cmd
  decode_message-IsCommand cmd e = subst (λ r. Sound IsCommand r) e decode_message-Sound
