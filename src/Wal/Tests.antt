-- ===== src/Wal/Tests.antt =====
-- The theorems of the log at small files.
use ferrox.Prelude.{
  err, some, false, ◌≡◌, ◌≤◌, Bool, true, Returns, arith, leb, refl, replicate, ℕ, ◌%◌, ◌++◌, ◌+◌,
  ◌<◌, List, [], ◌∷◌,
}
use ferrox.Protocol.Bytes.{to_le}
use ferrox.Wal.{io, OpenCall, extend, align_up, Wal, open_with_size, truncate_to}
use ferrox.Wal.Records.{Entry, AreEntries, log_bytes}
use ferrox.Wal.Open.{IsReopened, IsWal, Opened, open_with_size-Opened, open_with_size-IsWal}
use ferrox.Wal.Append.{entry_of, entry_of-IsEntry}
use ferrox.Wal.Truncate.{truncate_to-IsWal}
use ferrox.Wal.Iter.{iter_from, next}
use ferrox.Wal.Iter.Laws.{iter_from-IsAt}
use ferrox.Wal.Iter.Next.{IsNext, next-IsNext}

-- A checksum: the sum of the bytes.
abbrev sum : List ℕ → ℕ
sum [] = 0
sum (b ∷ bytes) = b + sum bytes

abbrev pub check_sum : List ℕ → ℕ
check_sum bytes = sum bytes % 4_294_967_296

pub check_sum_lt : (bytes : List ℕ) → check_sum bytes < 4_294_967_296
check_sum_lt bytes = omega arith

abbrev pub cancels_3 : Entry
cancels_3 = entry_of check_sum (2 ∷ (replicate 7 0 ++ (3 ∷ replicate 7 0)))

abbrev pub cancels_9 : Entry
cancels_9 = entry_of check_sum (2 ∷ (replicate 7 0 ++ (9 ∷ replicate 7 0)))

abbrev pub both : List Entry
both = cancels_3 ∷ cancels_9 ∷ []

both-AreEntries : AreEntries check_sum both
both-AreEntries = (
  entry_of-IsEntry check_sum check_sum_lt cancels_3.payload (omega arith) (omega arith),
  (entry_of-IsEntry check_sum check_sum_lt cancels_9.payload (omega arith) (omega arith), tt),
)

-- A log of two records, and room for 16 bytes.
abbrev pub log : Wal
log = record {
  mmap = log_bytes both ++ replicate 16 0;
  write_pos = 48;
  mapped_size = 64;
  encode_buf = replicate 40 0;
  record_count = 2;
}

pub log-IsWal : IsWal check_sum log both
unfolding align_up to_le
log-IsWal = record {
  are = both-AreEntries;
  room = 16;
  mmap_is = refl;
  write_is = refl;
  mapped_is = refl;
  count_is = refl;
  buf_is = refl;
}

-- The calls for at most 200 bytes.
abbrev pub small_files : OpenCall → Bool
small_files (extend size) = leb size 200
small_files c = true

-- A record that was torn behind the two.
open_with_size-Opened_example :
    Returns
      (Opened check_sum small_files both (16 ∷ 0 ∷ 0 ∷ 0 ∷ 9 ∷ []))
      (open_with_size check_sum small_files (log_bytes both ++ (16 ∷ 0 ∷ 0 ∷ 0 ∷ 9 ∷ [])) 64)
open_with_size-Opened_example =
    open_with_size-Opened check_sum small_files both (16 ∷ 0 ∷ 0 ∷ 0 ∷ 9 ∷ []) 64 both-AreEntries

-- A file of no bytes cannot be extended to 300.
open_refused : open_with_size check_sum small_files [] 300 ≡ some (err io, [])
unfolding open_with_size
open_refused = refl

open_with_size-IsWal_example :
    Returns
      (IsReopened check_sum small_files both)
      (open_with_size check_sum small_files log.mmap 100)
open_with_size-IsWal_example = open_with_size-IsWal check_sum small_files log both 100 log-IsWal

-- A system that grants 200 bytes, and not more.
abbrev pub sizes : ℕ → Bool
sizes size = leb size 200

pub sizes_limit : (size : ℕ) → 9_223_372_036_854_775_808 ≤ size → sizes size ≡ false
sizes_limit size large = ground arith

truncate_to-IsWal_example : Returns (λ w. IsWal check_sum w (cancels_3 ∷ [])) (truncate_to log 24 1)
unfolding align_up to_le
truncate_to-IsWal_example =
    truncate_to-IsWal check_sum log (cancels_3 ∷ []) (cancels_9 ∷ []) log-IsWal

next-IsNext_example :
    Returns
      (IsNext check_sum (iter_from log 1) (cancels_9 ∷ []))
      (next check_sum 3 (iter_from log 1))
next-IsNext_example =
    next-IsNext check_sum both 3 (iter_from log 1) (iter_from-IsAt check_sum log both 1 log-IsWal)
      (omega arith)
