-- ===== src/Snapshot.antt =====
-- src/snapshot.rs: a snapshot of the resting orders, and the directory that snapshots are saved to
-- and loaded from. The checksum and the binary format are parameters. A panic is `none`.
pub mod Files
pub mod Latest
pub mod Sorting
pub mod Tests
pub mod Names
pub mod Save
pub mod Restore
use ferrox.Prelude.{
  filter, Bool, Option, Result, err, if◌then◌else◌, map_err, none, ok, reverse, some, ℕ, ◌==◌,
  ◌>>=◌, List, [], ◌∷◌, ℤ,
}
use ferrox.Order.{Order}
use ferrox.Book.{all_resting_orders}
use ferrox.Matching.{MatchingEngine, MatchingError, restore_from_orders}
use ferrox.Snapshot.Files.{
  remove_file, file_name, put_file, rename, tmp_name, File, Dir, missing, unreadable, files,
  is_snapshot, sort,
}

-- An error of the binary format is told without its text.
pub data SnapshotError : Type 0 where
  io serialize deserialize : SnapshotError
  checksum_mismatch : (expected actual : ℕ) → SnapshotError
  restore_failed : MatchingError → SnapshotError

pub record Snapshot : Type 0 where
  pub wal_record_count : ℕ
  pub orders : List Order
  pub best_bid : Option ℤ
  pub best_ask : Option ℤ
  pub checksum : ℕ

-- `bincode` on the types that the code uses it on, and `crc32fast::hash`.
pub record Format : Type 0 where
  pub hash : List ℕ → ℕ
  pub fields : ℕ → Option ℤ → Option ℤ → List Order → Option (List ℕ)
  pub to_bytes : Snapshot → Option (List ℕ)
  pub from_bytes : List ℕ → Option Snapshot

module _ (f : Format) where
  -- `expect` panics where the fields have no bytes.
  abbrev pub compute_checksum : ℕ → Option ℤ → Option ℤ → List Order → Option ℕ
  compute_checksum wal_record_count best_bid best_ask orders = do
    bytes ← f.fields wal_record_count best_bid best_ask orders
    some (f.hash bytes)

  unfoldable pub capture : MatchingEngine → (wal_record_count : ℕ) → Option Snapshot
  capture engine wal_record_count = do
    orders ← all_resting_orders engine.book
    checksum ← compute_checksum wal_record_count engine.book.best_bid engine.book.best_ask orders
    some (record {
      wal_record_count = wal_record_count;
      orders = orders;
      best_bid = engine.book.best_bid;
      best_ask = engine.book.best_ask;
      checksum = checksum;
    })

  unfoldable pub verify_checksum : Snapshot → Option (Result SnapshotError (Unit {0}))
  verify_checksum s = do
    actual ← compute_checksum s.wal_record_count s.best_bid s.best_ask s.orders
    some (if s.checksum == actual then ok tt else err (checksum_mismatch s.checksum actual))

  -- A file that cannot be read has no bytes.
  unfoldable pub load_from_file : File → Result SnapshotError Snapshot
  load_from_file file = elim file.content [
    | none ↦ err io
    | some bytes ↦ elim (f.from_bytes bytes) [ none ↦ err deserialize | some snap ↦ ok snap ]
  ]

  -- A turn of the loop of `load_latest`: the snapshot, if it is good.
  unfoldable pub load_verified : File → Option (Option Snapshot)
  load_verified file = elim (load_from_file file) [
    | err e ↦ some none
    | ok snap ↦ do r ← verify_checksum snap; some (elim r [ ok _ ↦ some snap | err e ↦ none ])
  ]

  -- The loop of `load_latest`, over the files in the order that `pop` takes them.
  unfoldable pub first_good : List File → Option (Option Snapshot)
  first_good [] = some none
  first_good (file ∷ rest) = do
    r ← load_verified file
    elim r [ some snap ↦ some (some snap) | none ↦ first_good rest ]

  unfoldable pub load_latest : Dir → Option (Result SnapshotError (Option Snapshot))
  load_latest missing = some (ok none)
  load_latest (unreadable fs) = some (err io)
  load_latest (files fs) = do
    r ← first_good (reverse (sort (filter (λ file. is_snapshot file.name) fs)))
    some (ok r)

-- The system may refuse a call; a write that fails leaves no file, or one with any bytes.
pub data Call : Type 0 where
  create_dir write_file rename_file : Call

pub record FileSystem : Type 0 where
  pub grants : Call → Bool
  pub left : List ℕ → Option (Option (List ℕ))

abbrev pub save_to :
    Format → FileSystem → Snapshot → List File → Result SnapshotError (List ℕ) × List File
save_to f sys s fs =
    let final : List ℕ = file_name s.wal_record_count in
    let tmp : List ℕ = tmp_name s.wal_record_count in
    elim (f.to_bytes s) [
      | none ↦ (err serialize, fs)
      | some bytes ↦
          if sys.grants write_file
          then (if sys.grants rename_file
              then (ok final, rename tmp final (put_file tmp (some bytes) fs))
              else (err io, put_file tmp (some bytes) fs))
          else (
            err io,
            elim (sys.left bytes) [
              | none ↦ remove_file tmp fs
              | some content ↦ put_file tmp content fs
            ],
          )
    ]

-- The path that `save` returns is the name of the file.
unfoldable pub save : Format → FileSystem → Snapshot → Dir → Result SnapshotError (List ℕ) × Dir
save f sys s missing =
    if sys.grants create_dir
    then (let (r, fs) = save_to f sys s [] in (r, files fs))
    else (err io, missing)
save f sys s (files fs) =
    if sys.grants create_dir
    then (let (r, fs') = save_to f sys s fs in (r, files fs'))
    else (err io, files fs)
save f sys s (unreadable fs) =
    if sys.grants create_dir
    then (let (r, fs') = save_to f sys s fs in (r, unreadable fs'))
    else (err io, unreadable fs)

unfoldable pub restore :
    Snapshot → (arena_capacity : ℕ) → Option (Result SnapshotError MatchingEngine)
restore s arena_capacity = do
  r ← restore_from_orders s.orders arena_capacity
  some (map_err restore_failed r)
