-- ===== src/Recovery/Refuse.antt =====
-- A record with the right checksum that does not decode: recovery does not start.
use ferrox.Prelude.{
  Bool, Result, false, inl, inr, refl, ◌>>=◌, ◌⊎◌, Option, ap, arith, count, drop, err, length,
  length-append, length-drop_le, ok, replicate, some, suc, true, value, zero, ℕ, ◌++◌, ◌+◌, ◌<◌,
  ◌∙◌, ◌≡◌, List, [], ◌∷◌,
}
use ferrox.Matching.{MatchingEngine}
use ferrox.Matching.Uncrossed.{IsSafe}
use ferrox.Protocol.{EngineCommand, ProtocolError, decode_message}
use ferrox.Gateway.Safety.{AllCommands}
use ferrox.Wal.{OpenCall, Opening, io, Wal, protocol}
use ferrox.Wal.Records.{Entry, log_bytes}
use ferrox.Wal.Open.{IsReopened, IsWal}
use ferrox.Wal.Iter.{iter_from, WalIterator}
use ferrox.Wal.Iter.Laws.{IsAt, iter_from-IsAt}
use ferrox.Wal.Iter.Next.{wanted}
use ferrox.Snapshot.{Format, Snapshot, load_latest}
use ferrox.Snapshot.Files.{Dir}
use ferrox.Recovery.{RecoveryError, wal_error, replay, recover_with_wal_size, start_from}
use ferrox.Recovery.Replay.{Decode, next_in, one_more, replay_command-IsSafe, length-log_bytes}
use ferrox.Recovery.Recover.{open_wal-IsWal}

module _ (f : Format) (e : Entry) (x : ProtocolError)
    (broken : decode_message e.payload ≡ err x) where
  replay_refused :
      (cmds : List EngineCommand) (ws more es : List Entry) (fuel : ℕ) (engine : MatchingEngine)
      (w : Wal) (it : WalIterator) (count : ℕ)
      → IsAt f.hash it es
      → wanted f.hash it es ≡ ws ++ e ∷ more
      → Decode ws cmds
      → AllCommands cmds
      → IsSafe engine
      → length ws < fuel
      → replay f fuel engine w it count ≡ some (err (wal_error (protocol x)), w)
  unfolding replay
  replay_refused cmds ws more es zero engine w it count is same read good safe enough =
      absurd (omega arith)
  replay_refused [] [] more es (suc fuel) engine w it count is same read good safe enough =
      let (r, run, n) = value (next_in f it es (e ∷ more) is same) in
      let (it', r_is, is', same') = one_more f it e more r n in rw (run, r_is, broken)
  replay_refused (cmd ∷ cmds) (d ∷ ws) more es (suc fuel) engine w it count is same read good safe
        enough =
      let (r, run, n) = value (next_in f it es (d ∷ (ws ++ e ∷ more)) is same) in
      let (it', r_is, is', same') = one_more f it d (ws ++ e ∷ more) r n in
      let (engine', made, safe') = value (replay_command-IsSafe engine cmd good.0 safe) in
      let rest =
        replay_refused cmds ws more (ws ++ e ∷ more) fuel engine' w it' (count + 1) is' same' read.1
          good.1 safe' (omega arith) in
      rw (run, r_is, read.0, made) rest
  replay_refused [] (d ∷ ws) more es (suc fuel) engine w it count is same read good safe enough =
      absurd read
  replay_refused (cmd ∷ cmds) [] more es (suc fuel) engine w it count is same read good safe
        enough =
      absurd read

  -- The error of the decoder, or of a call that the system refuses.
  abbrev pub IsNotStarted :
      (OpenCall → Bool) → Option (Result RecoveryError (MatchingEngine × Wal)) → Type 0
  IsNotStarted grants r =
      (r ≡ some (err (wal_error (protocol x))))
      ⊎ ((c : OpenCall) × (grants c ≡ false) × (r ≡ some (err (wal_error io))))

  -- If a record of the log behind those of the snapshot holds a payload that does not decode, after
  -- records of commands that the engine takes, recovery reports the error of the decoder and does not
  -- start with an engine that lacks it; or the system has refused a call in opening the log, and that
  -- is reported.
  pub recover_with_wal_size-refused :
      (dir : Dir) (snap : Option Snapshot) (cap : ℕ) (engine : MatchingEngine) (start : ℕ)
      (grants : OpenCall → Bool) (size : Option ℕ) (w : Wal) (es ws more : List Entry)
      (cmds : List EngineCommand)
      → load_latest f dir ≡ some (ok snap)
      → start_from f snap cap ≡ some (ok (engine, start))
      → IsSafe engine
      → IsWal f.hash w es
      → drop start es ≡ ws ++ e ∷ more
      → Decode ws cmds
      → AllCommands cmds
      → IsNotStarted grants (recover_with_wal_size f true dir grants w.mmap cap size)
  unfolding recover_with_wal_size
  recover_with_wal_size-refused dir snap cap engine start grants size w es ws more cmds latest from
        safe is behind read good =
      let (o, run, reopened) = value (open_wal-IsWal f grants size w es is) in
      rw (latest, from, run) (after o reopened)
    where
      after :
          (o : Opening)
          → IsReopened f.hash grants es o
          → IsNotStarted grants (elim o.0 [
            | err y ↦ some (err (wal_error y))
            | ok w' ↦ do
              (r, w'') ← replay f (suc (length w'.mmap)) engine w' (iter_from w' start) start
              some (elim r [ err y ↦ err y | ok engine' ↦ ok (engine', w'') ])
          ])
      after (err y, file) (y_is, c, refused, rest, starts) = inr (c, refused, rw y_is refl)
      after (ok w', file) (is', same) =
          let n = ap (λ zs. length zs) is'.mmap_is in
          let m = length-append (log_bytes es) (replicate is'.room 0) in
          let k = length-log_bytes f.hash es is'.are in
          let d = length-drop_le start es in
          let part = ap (λ zs. length zs) behind in
          let all : wanted f.hash (iter_from w' start) es ≡ ws ++ e ∷ more =
            ap (λ (i : ℕ). drop i es) (omega arith) ∙ behind in
          let refused =
            replay_refused cmds ws more es (suc (length w'.mmap)) engine w' (iter_from w' start)
              start (iter_from-IsAt f.hash w' es start is') all read good safe
              (omega (arith, length-append ws (e ∷ more))) in
          inl (rw refused refl)
