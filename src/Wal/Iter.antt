-- ===== src/Wal/Iter.antt =====
-- src/wal.rs: `WalIterator`, the records of an open log from some number on.
pub mod Laws
pub mod Next
use ferrox.Prelude.{
  Result, err, if◌then◌else◌, leb, ltb, none, ok, some, suc, zero, ◌+◌, ◌==◌, ◌>>=◌, ℕ, List,
  Option, [],
}
use ferrox.Protocol.{EngineCommand, ProtocolError, decode_message}
use ferrox.Protocol.Bytes.{from_le}
use ferrox.Wal.{
  Wal, WalError, protocol, corruption, truncated_record, align_up, header_size, get_slice,
}

pub record WalIterator : Type 0 where
  pub mmap : List ℕ
  pub read_pos : ℕ
  pub end_pos : ℕ
  pub current_record : ℕ
  pub start_record : ℕ

-- `Wal::iter_from`
abbrev pub iter_from : Wal → (start_record : ℕ) → WalIterator
iter_from w start_record = record {
  mmap = w.mmap;
  read_pos = 0;
  end_pos = w.write_pos;
  current_record = 0;
  start_record = start_record;
}

-- A command with its record number, or an error.
abbrev pub Item : Type 0
Item = Result WalError (ℕ × EngineCommand)

-- What a turn of the loop of `next` comes to: there is no item, there is one, or the loop goes on.
pub data NextTurn : Type 0 where
  finished : NextTurn
  yields : Item → WalIterator → NextTurn
  continues : WalIterator → NextTurn

abbrev pub item_of : (record_num : ℕ) → Result ProtocolError EngineCommand → Item
item_of record_num (ok cmd) = ok (record_num, cmd)
item_of record_num (err e) = err (protocol e)

module _ (crc : List ℕ → ℕ) where
  unfoldable pub next_turn : WalIterator → Option NextTurn
  next_turn it = if ltb it.end_pos (it.read_pos + header_size) then some finished else do
    len_bytes ← get_slice it.mmap it.read_pos 4
    let payload_len : ℕ = from_le len_bytes
    let record_size : ℕ = align_up (header_size + payload_len)
    if payload_len == 0
        then some finished
        else (if ltb it.end_pos (it.read_pos + record_size)
            then some (yields (err (truncated_record it.read_pos)) it)
            else do
              crc_bytes ← get_slice it.mmap (it.read_pos + 4) 4
              payload ← get_slice it.mmap (it.read_pos + header_size) payload_len
              let next : WalIterator = record it {
                read_pos = it.read_pos + record_size;
                current_record = it.current_record + 1;
              }
              some (
                  if from_le crc_bytes == crc payload
                  then (if leb next.current_record it.start_record
                      then continues next
                      else yields (item_of next.current_record (decode_message payload)) next)
                  else yields (err (corruption it.read_pos)) it))

  -- `WalIterator::next`
  unfoldable pub next : (fuel : ℕ) → WalIterator → Option (Option Item × WalIterator)
  next zero it = none
  next (suc fuel) it = do
    t ← next_turn it
    elim t [
      | finished ↦ some (none, it)
      | yields item it ↦ some (some item, it)
      | continues it ↦ next fuel it
    ]
