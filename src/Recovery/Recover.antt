-- ===== src/Recovery/Recover.antt =====
-- Recovery from a snapshot and a log.
use ferrox.Prelude.{
  Bool, false, ◌>>=◌, length-drop_le, returns, Option, Result, Returns, ap, arith, bind, drop, err,
  length, length-append, none, ok, replicate, some, suc, true, ℕ, ◌≡◌, List,
}
use ferrox.Matching.{MatchingEngine}
use ferrox.Matching.Uncrossed.{IsSafe}
use ferrox.Protocol.{EngineCommand}
use ferrox.Gateway.Safety.{AllCommands}
use ferrox.Wal.{OpenCall, Opening, io, Wal, open_file, default_initial_size}
use ferrox.Wal.Records.{Entry, log_bytes}
use ferrox.Wal.Open.{IsReopened, IsWal, open_with_size-IsWal}
use ferrox.Wal.Iter.{iter_from}
use ferrox.Wal.Iter.Laws.{iter_from-IsAt}
use ferrox.Wal.Iter.Next.{wanted}
use ferrox.Snapshot.{Format, Snapshot, load_latest}
use ferrox.Snapshot.Files.{Dir}
use ferrox.Recovery.{wal_error, RecoveryError, replay, recover_with_wal_size, start_from, open_wal}
use ferrox.Recovery.Replay.{Decode, replay_all, IsReplayed, replay-IsReplayed, length-log_bytes}

module _ (f : Format) where
  pub open_wal-IsWal :
      (grants : OpenCall → Bool) (size : Option ℕ) (w : Wal) (es : List Entry)
      → IsWal f.hash w es
      → Returns (IsReopened f.hash grants es) (open_wal f grants size w.mmap)
  unfolding open_file
  open_wal-IsWal grants none w es is =
      open_with_size-IsWal f.hash grants w es default_initial_size is
  open_wal-IsWal grants (some size) w es is = open_with_size-IsWal f.hash grants w es size is

  -- The recovered engine and log, or the error of a call that the system refuses.
  abbrev pub IsRecovered :
      (OpenCall → Bool)
      → MatchingEngine
      → List Entry
      → List EngineCommand
      → Result RecoveryError (MatchingEngine × Wal)
      → Type 0
  IsRecovered grants engine es cmds (err e) =
      (e ≡ wal_error io) × (c : OpenCall) × (grants c ≡ false)
  IsRecovered grants engine es cmds (ok (engine', w)) =
      (replay_all engine cmds ≡ some engine') × IsSafe engine' × IsWal f.hash w es

  -- A log is opened again and its commands behind the first `start` are replayed.
  replay_wal :
      (w : Wal) (es : List Entry) (start : ℕ) (cmds : List EngineCommand) (engine : MatchingEngine)
      → IsWal f.hash w es
      → Decode (drop start es) cmds
      → AllCommands cmds
      → IsSafe engine
      → Returns
          (IsReplayed engine w cmds)
          (replay f (suc (length w.mmap)) engine w (iter_from w start) start)
  replay_wal w es start cmds engine is read good safe =
      let n = ap (λ zs. length zs) is.mmap_is in
      let m = length-append (log_bytes es) (replicate is.room 0) in
      let k = length-log_bytes f.hash es is.are in
      let d = length-drop_le start es in
      let all : wanted f.hash (iter_from w start) es ≡ drop start es =
        ap (λ (i : ℕ). drop i es) (omega arith) in
      replay-IsReplayed f cmds (drop start es) es (suc (length w.mmap)) engine w (iter_from w start)
        start (iter_from-IsAt f.hash w es start is) all read good safe (omega arith)

  -- If the directory of snapshots can be made and its newest good snapshot, if it has one, restores to
  -- an engine with a sound and uncrossed book, and if the records of a log that was closed, behind
  -- those of the snapshot, decode to commands that the engine takes, then recovery does not panic: the
  -- engine is the one that these commands make of the engine of the snapshot, or of the empty one, its
  -- book is sound and uncrossed, and the log holds the same records. Otherwise the system has refused a
  -- call in opening the log, with any initial size, and that is reported.
  pub recover_with_wal_size-IsRecovered :
      (dir : Dir) (snap : Option Snapshot) (cap : ℕ) (engine : MatchingEngine) (start : ℕ)
      (grants : OpenCall → Bool) (size : Option ℕ) (w : Wal) (es : List Entry)
      (cmds : List EngineCommand)
      → load_latest f dir ≡ some (ok snap)
      → start_from f snap cap ≡ some (ok (engine, start))
      → IsSafe engine
      → IsWal f.hash w es
      → Decode (drop start es) cmds
      → AllCommands cmds
      → Returns
          (IsRecovered grants engine es cmds)
          (recover_with_wal_size f true dir grants w.mmap cap size)
  unfolding recover_with_wal_size
  recover_with_wal_size-IsRecovered dir snap cap engine start grants size w es cmds latest from safe
        is read good =
      rw (latest, from) (bind (open_wal-IsWal grants size w es is) replayed)
    where
      replayed :
          (o : Opening)
          → IsReopened f.hash grants es o
          → Returns (IsRecovered grants engine es cmds) (elim o.0 [
            | err e ↦ some (err (wal_error e))
            | ok w' ↦ do
              (r, w'') ← replay f (suc (length w'.mmap)) engine w' (iter_from w' start) start
              some (elim r [ err e ↦ err e | ok engine' ↦ ok (engine', w'') ])
          ])
      replayed (err e, file) (e_is, c, refused, more, starts) =
          returns (ap wal_error e_is, c, refused)
      replayed (ok w', file) (is', same) =
          bind (replay_wal w' es start cmds engine is' read good safe)
            λ (r, w'') (kept, engine', r_is, all, safe').
              rw (r_is, kept) (returns (all, safe', is'))
