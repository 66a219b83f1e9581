-- ===== src/Recovery.antt =====
-- src/recovery.rs: the engine is rebuilt from the latest snapshot and the records of the log behind
-- it. The directory of the snapshots and the file of the log are what the system shows of them, and
-- it may refuse a call; a panic is `none`.
pub mod Recover
pub mod Refuse
pub mod Replay
mod Tests
use ferrox.Prelude.{
  Bool, Option, Result, count, err, if◌then◌else◌, length, none, not, ok, some, suc, zero, ℕ, ◌+◌,
  ◌>>=◌, List, [], ◌∷◌,
}
use ferrox.Matching
use ferrox.Matching.{MatchingEngine, add_order}
use ferrox.Protocol.{EngineCommand, new_order, cancel_order}
use ferrox.Wal.{
  OpenCall, Opening, io, Wal, WalError, corruption, truncated_record, protocol, truncate_to,
  open_with_size, open_file,
}
use ferrox.Wal.Iter.{WalIterator, iter_from, next}
use ferrox.Snapshot.{Snapshot, SnapshotError, Format, load_latest, restore}
use ferrox.Snapshot.Files.{Dir}

pub data RecoveryError : Type 0 where
  wal_error : WalError → RecoveryError
  snapshot_error : SnapshotError → RecoveryError

-- What the engine reports is dropped.
unfoldable pub replay_command : MatchingEngine → EngineCommand → Option MatchingEngine
replay_command engine (new_order order) = do (_, engine') ← add_order engine order; some engine'
replay_command engine (cancel_order order_id) = do
  (_, engine') ← Matching.cancel engine order_id
  some engine'

-- The engine, or why there is none, and the log.
abbrev pub Replayed : Type 0
Replayed = Result RecoveryError MatchingEngine × Wal

abbrev pub truncated : MatchingEngine → Wal → (offset count : ℕ) → Option Replayed
truncated engine w offset count = do w' ← truncate_to w offset count; some (ok engine, w')

-- The arms of the `match` in the loop for an error.
abbrev pub stop_at :
    MatchingEngine → Wal → (record_count_at_replay : ℕ) → WalError → Option Replayed
stop_at engine w count (corruption offset) = truncated engine w offset count
stop_at engine w count (truncated_record offset) = truncated engine w offset count
stop_at engine w count (protocol e) = some (err (wal_error (protocol e)), w)
stop_at engine w count WalError.io = some (err (wal_error WalError.io), w)

module _ (f : Format) where
  -- The loop over the iterator; a record has some bytes, so that `next` has enough fuel.
  unfoldable pub replay :
      (fuel : ℕ)
      → MatchingEngine
      → Wal
      → WalIterator
      → (record_count_at_replay : ℕ) → Option Replayed
  replay zero engine w it count = none
  replay (suc fuel) engine w it count = do
    (item, it') ← next f.hash (suc (length it.mmap)) it
    elim item [
      | none ↦ some (ok engine, w)
      | some (err e) ↦ stop_at engine w count e
      | some (ok (_, cmd)) ↦ do
        engine' ← replay_command engine cmd
        replay fuel engine' w it' (count + 1)
    ]

  -- The engine that the replay starts from, and the number of records that it stands for.
  unfoldable pub start_from :
      Option Snapshot → (arena_capacity : ℕ) → Option (Result RecoveryError (MatchingEngine × ℕ))
  start_from none arena_capacity = some (ok (Matching.with_capacity arena_capacity, 0))
  start_from (some snap) arena_capacity = do
    r ← restore snap arena_capacity
    some
        (elim r [ err e ↦ err (snapshot_error e) | ok engine ↦ ok (engine, snap.wal_record_count) ])

  abbrev pub open_wal : (OpenCall → Bool) → Option ℕ → List ℕ → Option Opening
  open_wal grants none file = open_file f.hash grants file
  open_wal grants (some size) file = open_with_size f.hash grants file size

  -- The directory cannot be made if the system does not let it.
  unfoldable pub recover_with_wal_size :
      (made : Bool)
      → Dir
      → (OpenCall → Bool)
      → (file : List ℕ) → (arena_capacity : ℕ) → (wal_initial_size : Option ℕ)
      → Option (Result RecoveryError (MatchingEngine × Wal))
  recover_with_wal_size made dir grants file arena_capacity wal_initial_size =
      if not made then some (err (wal_error WalError.io)) else do
        latest ← load_latest f dir
        elim latest [
          | err e ↦ some (err (snapshot_error e))
          | ok snap ↦ do
            r ← start_from snap arena_capacity
            elim r [
              | err e ↦ some (err e)
              | ok (engine, start_record) ↦ do
                (opened, _) ← open_wal grants wal_initial_size file
                elim opened [
                  | err e ↦ some (err (wal_error e))
                  | ok w ↦ do
                    (r, w') ←
                        replay (suc (length w.mmap)) engine w (iter_from w start_record)
                          start_record
                    some (elim r [ err e ↦ err e | ok engine' ↦ ok (engine', w') ])
                ]
            ]
        ]

  unfoldable pub recover :
      (made : Bool)
      → Dir
      → (OpenCall → Bool)
      → (file : List ℕ) → (arena_capacity : ℕ)
      → Option (Result RecoveryError (MatchingEngine × Wal))
  recover made dir grants file arena_capacity =
      recover_with_wal_size made dir grants file arena_capacity none
