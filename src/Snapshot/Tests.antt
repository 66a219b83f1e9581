-- ===== src/Snapshot/Tests.antt =====
-- The theorems of the snapshots at a small directory.
use mathlib.Core.Path.{subst}
use ferrox.Book.Tests.{two, two-IsBook}
use ferrox.Matching.{MatchingEngine}
use ferrox.Snapshot.Restore.{IsRestored, restore-capture}
use ferrox.Prelude.{
  Bool, false, arith, true, Option, Returns, none, ok, refl, replicate, some, ℕ, ◌++◌, ◌≡◌, List,
  [], ◌∷◌,
}
use ferrox.Snapshot.{
  Call, io, rename_file, capture, restore, FileSystem, save, first_good, load_from_file,
  load_verified, verify_checksum, Snapshot, Format, load_latest,
}
use ferrox.Snapshot.Files.{is_snapshot, Dir, files, prefix, suffix}
use ferrox.Snapshot.Latest.{IsLatest, HasFields, load_latest-IsLatest}
use ferrox.Snapshot.Save.{save_failed, IsSaved, save-IsSaved}
use ferrox.Wal.Tests.{check_sum}

abbrev pub empty_at : ℕ → Snapshot
empty_at n = record {
  wal_record_count = n;
  orders = [];
  best_bid = none;
  best_ask = none;
  checksum = check_sum (n ∷ []);
}

abbrev pub read_count : List ℕ → Option Snapshot
read_count [] = none
read_count (n ∷ []) = some (empty_at n)
read_count (n ∷ m ∷ bytes) = none

-- A format for snapshots of no orders.
abbrev pub format : Format
format = record {
  hash = check_sum;
  fields = λ n bid ask orders. some (n ∷ []);
  to_bytes = λ s. some (s.wal_record_count ∷ []);
  from_bytes = read_count;
}

abbrev named : ℕ → List ℕ
named digit = prefix ++ (replicate 9 48 ++ (digit ∷ suffix))

-- The newest file is cut short.
abbrev pub dir : Dir
dir = files (
    record { name = named 51; content = some [] }
    ∷ record { name = named 49; content = some (1 ∷ []) }
    ∷ record { name = prefix; content = none }
    ∷ [])

pub format-HasFields : HasFields format
format-HasFields n bid ask orders = (n ∷ [], refl)

-- A name with the letter é in one byte, and one with it in two.
not_utf8_lem : is_snapshot (prefix ++ (233 ∷ suffix)) ≡ false
unfolding is_snapshot
not_utf8_lem = refl

utf8_lem : is_snapshot (prefix ++ (195 ∷ 169 ∷ suffix)) ≡ true
unfolding is_snapshot
utf8_lem = refl

load_latest-IsLatest_example : Returns (IsLatest format dir) (load_latest format dir)
load_latest-IsLatest_example = load_latest-IsLatest format format-HasFields dir

pub load_latest_lem : load_latest format dir ≡ some (ok (some (empty_at 1)))
unfolding load_latest first_good load_verified load_from_file verify_checksum is_snapshot
load_latest_lem = refl

-- A system that lets every call be.
abbrev pub system : FileSystem
system = record { grants = λ call. true; left = λ bytes. none }

round_lem : (bytes : List ℕ) → some (5 ∷ []) ≡ some bytes → read_count bytes ≡ some (empty_at 5)
round_lem bytes e =
    let one : 5 ∷ [] ≡ bytes = cc in subst (λ bs. read_count bs ≡ some (empty_at 5)) one refl

save-IsSaved_example : IsSaved format (empty_at 5) dir (save format system (empty_at 5) dir)
unfolding is_snapshot
save-IsSaved_example =
    save-IsSaved format (empty_at 5) format-HasFields round_lem refl system dir
      ((λ _. refl), ((λ _. refl), ((λ _. refl), tt)))

-- A system that renames no file.
abbrev stuck : FileSystem
stuck = record { grants = no_rename; left = λ bytes. none }
  where
    no_rename : Call → Bool
    no_rename rename_file = false
    no_rename call = true

save_failed_example :
    load_latest format (save format stuck (empty_at 5) dir).1 ≡ load_latest format dir
unfolding save
save_failed_example =
    save_failed format (empty_at 5) stuck dir (save format stuck (empty_at 5) dir).1 io refl

restore-capture_example :
    Returns
      (λ s.
        (s.wal_record_count ≡ 7)
        × (verify_checksum format s ≡ some (ok tt))
        × Returns
            (λ r.
              (engine' : MatchingEngine) × (r ≡ ok engine')
              × IsRestored (record { book = two; fills_buf = [] }) 2 engine')
            (restore s 2))
      (capture format (record { book = two; fills_buf = [] }) 7)
restore-capture_example =
    restore-capture format format-HasFields (record { book = two; fills_buf = [] }) 7 2 two-IsBook
      (omega arith) (omega (arith, two-IsBook.orders))
