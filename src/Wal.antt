-- ===== src/Wal.antt =====
-- src/wal.rs: the write-ahead log over the bytes of its file, which a mapping shows as they are. A
-- panic is `none`, and so is a loop that outlives its fuel. The checksum is a parameter, and so are
-- the calls that the system grants when a log is opened and the sizes that it grants a growing one.
pub mod Append
pub mod Appended
pub mod Encode
pub mod Iter
pub mod Open
pub mod Records
pub mod Scanning
pub mod Slices
pub mod Tests
pub mod Truncate
use ferrox.Prelude.{
  ◌%◌, true, Bool, Result, err, if◌then◌else◌, leb, length, ltb, max, none, ok, replicate, some,
  suc, take, zero, ◌*◌, ◌++◌, ◌+◌, ◌-◌, ◌/◌, ◌==◌, ◌>>=◌, ◌||◌, ℕ, List, Option, [],
}
use ferrox.Protocol.{
  EngineCommand, ProtocolError, new_order, cancel_order, encode_new_order, encode_cancel_order,
  decode_message, new_order_size,
}
use ferrox.Protocol.Bytes.{slice, put, to_le, from_le}

abbrev pub header_size : ℕ
header_size = 8

abbrev pub alignment : ℕ
alignment = 8

abbrev pub default_initial_size : ℕ
default_initial_size = 67_108_864

-- `& !(ALIGNMENT - 1)` leaves the multiple of 8 below.
unfoldable pub align_up : ℕ → ℕ
align_up n = (n + alignment - 1) / alignment * alignment

pub data WalError : Type 0 where
  io : WalError
  protocol : ProtocolError → WalError
  corruption : (offset : ℕ) → WalError
  truncated_record : (offset : ℕ) → WalError

pub record Wal : Type 0 where
  pub mmap : List ℕ
  pub write_pos : ℕ
  pub mapped_size : ℕ
  pub encode_buf : List ℕ
  pub record_count : ℕ

-- The calls of `open_with_size` that the system may refuse: `open`, `metadata`, the three `set_len` and
-- the two `map_mut`, with the size of the file.
pub data OpenCall : Type 0 where
  open_path metadata : OpenCall
  extend map_file cut extend_again map_again : (size : ℕ) → OpenCall

-- The log or the error, and the bytes of the file.
abbrev pub Opening : Type 0
Opening = Result WalError Wal × List ℕ

-- The `?` on a call: one that is refused leaves the file as it is.
abbrev pub or_io : (granted : Bool) → (file : List ℕ) → Option Opening → Option Opening
or_io granted file next = if granted then next else some (err io, file)

-- `file.set_len(size)`, seen through a new mapping: what is cut off is gone, what is new is zero.
unfoldable pub set_len : ℕ → List ℕ → List ℕ
set_len size bytes = take size bytes ++ replicate (size - length bytes) 0

-- `&data[offset..offset + n]`
unfoldable pub get_slice : List ℕ → (offset n : ℕ) → Option (List ℕ)
get_slice bytes offset n =
    if leb (offset + n) (length bytes) then some (slice n offset bytes) else none

-- `data[offset..offset + n].copy_from_slice(bytes)`
unfoldable pub set_slice : List ℕ → (offset : ℕ) → List ℕ → Option (List ℕ)
set_slice mmap offset bytes =
    if leb (offset + length bytes) (length mmap) then some (put offset bytes mmap) else none

-- Result of walking the records at the start of a mapped log.
pub record Scan : Type 0 where
  pub end : ℕ
  pub count : ℕ

-- What the walk finds at a position: no record, or one of some size.
pub data Probe : Type 0 where
  no_record : Probe
  found : (record_size : ℕ) → Probe

module _ (crc : List ℕ → ℕ) where
  -- The body of the loop of `scan_records`.
  unfoldable pub scan_at : List ℕ → ℕ → Option Probe
  scan_at bytes at = if ltb (length bytes) (at + header_size) then some no_record else do
    len_bytes ← get_slice bytes at 4
    let payload_len : ℕ = from_le len_bytes
    let record_size : ℕ = align_up (header_size + payload_len)
    if payload_len == 0 || ltb (length bytes) (at + record_size) then some no_record else do
      crc_bytes ← get_slice bytes (at + 4) 4
      payload ← get_slice bytes (at + header_size) payload_len
      some (if from_le crc_bytes == crc payload then found record_size else no_record)

  unfoldable pub scan_from : (fuel : ℕ) → List ℕ → (at count : ℕ) → Option Scan
  scan_from zero bytes at count = none
  scan_from (suc fuel) bytes at count = do
    f ← scan_at bytes at
    elim f [
      | no_record ↦ some (record { end = at; count = count })
      | found record_size ↦ scan_from fuel bytes (at + record_size) (count + 1)
    ]

  unfoldable pub scan_records : List ℕ → Option Scan
  scan_records bytes = scan_from (suc (length bytes)) bytes 0 0

  -- `open_with_size` on the bytes of the file, and the bytes that it leaves there.
  unfoldable pub open_with_size : (OpenCall → Bool) → List ℕ → (initial_size : ℕ) → Option Opening
  open_with_size grants file initial_size =
      let smaller : Bool = ltb (length file) initial_size in
      let mapped_size : ℕ = if smaller then initial_size else length file in
      let extended : List ℕ = set_len mapped_size file in
      or_io (grants open_path) file (
        or_io (grants metadata) file (
          or_io (if smaller then grants (extend initial_size) else true) file (
            or_io (grants (map_file mapped_size)) extended (do
              scan ← scan_records extended
              let valid : List ℕ = set_len scan.end extended
              let mmap : List ℕ = set_len mapped_size valid
              or_io (grants (cut scan.end)) extended (
                  or_io (grants (extend_again mapped_size)) valid (
                    or_io (grants (map_again mapped_size)) mmap (
                      some (
                        ok (record {
                          mmap = mmap;
                          write_pos = scan.end;
                          mapped_size = mapped_size;
                          encode_buf = replicate new_order_size 0;
                          record_count = scan.count;
                        }),
                        mmap,
                      ))))))))

  -- `open`
  unfoldable pub open_file : (OpenCall → Bool) → List ℕ → Option Opening
  open_file grants file = open_with_size grants file default_initial_size

-- The payload that a command is encoded to, in the buffer of the log.
unfoldable pub encode_command : List ℕ → EngineCommand → Result ProtocolError (ℕ × List ℕ)
encode_command buf (new_order order) = encode_new_order buf order
encode_command buf (cancel_order order_id) = encode_cancel_order buf order_id

module _ (grants : ℕ → Bool) where
  -- The new mapping, or the error of the file system.
  unfoldable pub ensure_capacity : Wal → (needed : ℕ) → Result WalError Wal
  ensure_capacity w needed =
      let wanted : ℕ = (w.write_pos + needed) % 18_446_744_073_709_551_616 in
      let new_size : ℕ = max (w.mapped_size * 2 % 18_446_744_073_709_551_616) wanted in
      if leb wanted w.mapped_size
      then ok w
      else (if grants new_size
          then ok (record w { mmap = set_len new_size w.mmap; mapped_size = new_size })
          else err io)

-- The writes of `append`, in a mapping with room.
unfoldable pub write_record : Wal → (payload : List ℕ) → (checksum : ℕ) → Option Wal
write_record w payload checksum =
    let record_size : ℕ = align_up (header_size + length payload) in
    do
      mmap ← set_slice w.mmap w.write_pos (to_le 4 (length payload))
      mmap ← set_slice mmap (w.write_pos + 4) (to_le 4 checksum)
      mmap ← set_slice mmap (w.write_pos + header_size) payload
      mmap ←
          set_slice mmap (w.write_pos + header_size + length payload)
            (replicate (record_size - (header_size + length payload)) 0)
      some (record w {
        mmap = mmap;
        write_pos = w.write_pos + record_size;
        record_count = w.record_count + 1;
      })

module _ (crc : List ℕ → ℕ) (grants : ℕ → Bool) where
  -- `append` with the command encoded in the buffer.
  unfoldable pub append_encoded : Wal → (payload_len : ℕ) → Option (Result WalError ℕ × Wal)
  append_encoded w payload_len =
      elim (ensure_capacity grants w (align_up (header_size + payload_len))) [
        | err e ↦ some (err e, w)
        | ok w ↦ do
          payload ← get_slice w.encode_buf 0 payload_len
          w ← write_record w payload (crc payload)
          some (ok w.record_count, w)
      ]

  unfoldable pub append : Wal → EngineCommand → Option (Result WalError ℕ × Wal)
  append w cmd = elim (encode_command w.encode_buf cmd) [
    | err e ↦ some (err (protocol e), w)
    | ok (payload_len, buf) ↦ append_encoded (record w { encode_buf = buf }) payload_len
  ]

-- An empty range is not filled.
unfoldable pub truncate_to : Wal → (offset record_count : ℕ) → Option Wal
truncate_to w offset record_count = do
  mmap ←
      (if ltb offset w.write_pos
        then set_slice w.mmap offset (replicate (w.write_pos - offset) 0)
        else some w.mmap)
  some (record w { mmap = mmap; write_pos = offset; record_count = record_count })
