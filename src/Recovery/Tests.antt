-- ===== src/Recovery/Tests.antt =====
-- The theorems of recovery at a small log and directory.
use ferrox.Prelude.{err, replicate, ◌++◌, Returns, arith, ok, refl, some, true, ◌≡◌, [], ◌∷◌}
use ferrox.Book
use ferrox.Book.New.{empty, with_capacity-IsBook}
use ferrox.Matching.{MatchingEngine, restore_from_orders, insert_all}
use ferrox.Matching.Uncrossed.{IsSafe}
use ferrox.Protocol.{
  decode_cancel_order, decode_message, get_range, read_u64, read_u8, cancel_order,
  unknown_message_type,
}
use ferrox.Protocol.Bytes.{from_le, slice, to_le}
use ferrox.Wal.{Wal, align_up}
use ferrox.Wal.Records.{Entry, log_bytes}
use ferrox.Wal.Open.{IsWal}
use ferrox.Wal.Append.{entry_of, entry_of-IsEntry}
use ferrox.Wal.Tests.{
  small_files, check_sum, check_sum_lt, cancels_3, cancels_9, both, log, log-IsWal,
}
use ferrox.Snapshot.{restore}
use ferrox.Snapshot.Tests.{format, dir, empty_at, load_latest_lem}
use ferrox.Recovery.{recover_with_wal_size, start_from}
use ferrox.Recovery.Replay.{Decode}
use ferrox.Recovery.Recover.{IsRecovered, recover_with_wal_size-IsRecovered}
use ferrox.Recovery.Refuse.{IsNotStarted, recover_with_wal_size-refused}

abbrev engine : MatchingEngine
engine = record { book = Book.with_capacity 4; fills_buf = [] }

engine-IsSafe : IsSafe engine
engine-IsSafe = (empty 4, with_capacity-IsBook 4 (omega arith), λ p q (v, e) a. cc)

start : start_from format (some (empty_at 1)) 4 ≡ some (ok (engine, 1))
unfolding start_from restore restore_from_orders insert_all
start = refl

cancels : Decode (cancels_9 ∷ []) (cancel_order 9 ∷ [])
unfolding decode_message decode_cancel_order read_u8 read_u64 get_range slice from_le
cancels = (refl, tt)

-- The snapshot stands for the first record of the log.
recover_with_wal_size-IsRecovered_example :
    Returns
      (IsRecovered format small_files engine both (cancel_order 9 ∷ []))
      (recover_with_wal_size format true dir small_files log.mmap 4 (some 100))
recover_with_wal_size-IsRecovered_example =
    recover_with_wal_size-IsRecovered format dir (some (empty_at 1)) 4 engine 1 small_files
      (some 100) log both (cancel_order 9 ∷ []) load_latest_lem start engine-IsSafe log-IsWal
      cancels (tt, tt)

-- A record of one byte that is no message, behind one of a cancellation.
abbrev bad : Entry
bad = entry_of check_sum (9 ∷ [])

abbrev bad_log : Wal
bad_log = record {
  mmap = log_bytes (cancels_3 ∷ bad ∷ []) ++ replicate 8 0;
  write_pos = 40;
  mapped_size = 48;
  encode_buf = replicate 40 0;
  record_count = 2;
}

bad_log-IsWal : IsWal check_sum bad_log (cancels_3 ∷ bad ∷ [])
unfolding align_up to_le
bad_log-IsWal = record {
  are = (
    entry_of-IsEntry check_sum check_sum_lt cancels_3.payload (omega arith) (omega arith),
    (entry_of-IsEntry check_sum check_sum_lt (9 ∷ []) (omega arith) (omega arith), tt),
  );
  room = 8;
  mmap_is = refl;
  write_is = refl;
  mapped_is = refl;
  count_is = refl;
  buf_is = refl;
}

unknown : decode_message bad.payload ≡ err (unknown_message_type 9)
unfolding decode_message read_u8
unknown = refl

recover_with_wal_size-refused_example :
    IsNotStarted format bad
      (unknown_message_type 9)
      unknown
      small_files
      (recover_with_wal_size format true dir small_files bad_log.mmap 4 (some 100))
recover_with_wal_size-refused_example =
    recover_with_wal_size-refused format bad (unknown_message_type 9) unknown dir
      (some (empty_at 1)) 4 engine 1 small_files (some 100) bad_log (cancels_3 ∷ bad ∷ []) [] [] []
      load_latest_lem start engine-IsSafe bad_log-IsWal refl tt tt
