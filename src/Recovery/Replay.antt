-- ===== src/Recovery/Replay.antt =====
-- The replay of a log: its commands behind the wanted number, one after the other.
use mathlib.Core.Path.{subst}
use ferrox.Prelude.{
  mono, none, value, ◌-◌, Option, Returns, ap, arith, bind, count, length, length-append, ok, refl,
  returns, some, suc, zero, ℕ, ◌++◌, ◌+◌, ◌<◌, ◌>>=◌, ◌≡◌, ◌≤◌, List, [], ◌∷◌,
}
use ferrox.Matching.{MatchingEngine}
use ferrox.Matching.Uncrossed.{IsSafe, add_order-IsSafe}
use ferrox.Matching.CancelSafe.{cancel-IsSafe}
use ferrox.Protocol.{EngineCommand, new_order, cancel_order, decode_message}
use ferrox.Protocol.Decode.{IsCommand}
use ferrox.Gateway.Safety.{AllCommands}
use ferrox.Wal.{Wal, header_size}
use ferrox.Wal.Records.{Entry, AreEntries, log_bytes, entry_bytes, length-entry_bytes, align_up-le}
use ferrox.Wal.Iter.{WalIterator, Item, next, item_of}
use ferrox.Wal.Iter.Laws.{IsAt}
use ferrox.Wal.Iter.Next.{IsNext, ended, another, wanted, next-IsNext, drop_none}
use ferrox.Snapshot.{Format}
use ferrox.Recovery.{Replayed, replay, replay_command}

-- Commands one after the other.
abbrev pub replay_all : MatchingEngine → List EngineCommand → Option MatchingEngine
replay_all engine [] = some engine
replay_all engine (cmd ∷ cmds) = replay_command engine cmd >>= λ engine'. replay_all engine' cmds

-- The payloads of records are these commands.
abbrev pub Decode : List Entry → List EngineCommand → Type 0
Decode [] [] = Unit
Decode [] (cmd ∷ cmds) = ⊥
Decode (e ∷ es) [] = ⊥
Decode (e ∷ es) (cmd ∷ cmds) = (decode_message e.payload ≡ ok cmd) × Decode es cmds

pub replay_command-IsSafe :
    (engine : MatchingEngine) (cmd : EngineCommand)
    → IsCommand cmd
    → IsSafe engine
    → Returns (λ engine'. IsSafe engine') (replay_command engine cmd)
unfolding replay_command
replay_command-IsSafe engine (new_order order) (more, word) safe =
    bind (add_order-IsSafe engine order safe more word) (λ (r, engine') left. returns left)
replay_command-IsSafe engine (cancel_order id) good safe =
    bind (cancel-IsSafe engine id safe) (λ (r, engine') left. returns left)

pub length-log_bytes :
    (crc : List ℕ → ℕ) (es : List Entry) → AreEntries crc es → length es ≤ length (log_bytes es)
length-log_bytes crc [] are = omega arith
length-log_bytes crc (e ∷ es) are = omega (
  arith,
  length-append (entry_bytes e) (log_bytes es),
  length-entry_bytes crc e are.0,
  align_up-le (header_size + length e.payload),
  length-log_bytes crc es are.1,
)

-- The engine is the one that the commands make, and the log is as it was.
abbrev pub IsReplayed : MatchingEngine → Wal → List EngineCommand → Replayed → Type 0
IsReplayed engine w cmds (r, w') =
    (w' ≡ w)
    × (engine' : MatchingEngine) × (r ≡ ok engine')
    × (replay_all engine cmds ≡ some engine')
    × IsSafe engine'

module _ (f : Format) where
  pub next_in :
      (it : WalIterator) (es ws : List Entry)
      → IsAt f.hash it es
      → wanted f.hash it es ≡ ws
      → Returns (IsNext f.hash it ws) (next f.hash (suc (length it.mmap)) it)
  next_in it es ws is same =
      let n = ap (λ zs. length zs) is.mmap_is in
      let enough : length es < suc (length it.mmap) = omega (
        arith,
        length-append is.read (log_bytes es ++ is.behind),
        length-append (log_bytes es) is.behind,
        length-log_bytes f.hash es is.are,
      ) in
      subst (λ ws. Returns (IsNext f.hash it ws) (next f.hash (suc (length it.mmap)) it)) same
        (next-IsNext f.hash es (suc (length it.mmap)) it is enough)

  no_more :
      (it : WalIterator) (r : Option Item × WalIterator)
      → IsNext f.hash it [] r
      → (it' : WalIterator) × (r ≡ (none, it'))
  no_more it r (ended {it'}) = (it', refl)

  -- The iterator behind a record that was yielded.
  pub one_more :
      (it : WalIterator) (e : Entry) (ws : List Entry) (r : Option Item × WalIterator)
      → IsNext f.hash it (e ∷ ws) r
      → (it' : WalIterator) × (r
          ≡ (some (item_of it'.current_record (decode_message e.payload)), it'))
        × IsAt f.hash it' ws
        × (wanted f.hash it' ws ≡ ws)
  one_more it e ws r (another {it'} num start same is) =
      (it', refl, is, drop_none (it'.start_record - it'.current_record) ws (omega arith))

  pub replay-IsReplayed :
      (cmds : List EngineCommand) (ws es : List Entry) (fuel : ℕ) (engine : MatchingEngine)
      (w : Wal) (it : WalIterator) (count : ℕ)
      → IsAt f.hash it es
      → wanted f.hash it es ≡ ws
      → Decode ws cmds
      → AllCommands cmds
      → IsSafe engine
      → length ws < fuel
      → Returns (IsReplayed engine w cmds) (replay f fuel engine w it count)
  unfolding replay
  replay-IsReplayed cmds ws es zero engine w it count is same read good safe enough =
      absurd (omega arith)
  replay-IsReplayed [] [] es (suc fuel) engine w it count is same read good safe enough =
      let (r, run, n) = value (next_in it es [] is same) in
      let (it', r_is) = no_more it r n in rw (run, r_is) (returns (refl, engine, refl, refl, safe))
  replay-IsReplayed (cmd ∷ cmds) (e ∷ ws) es (suc fuel) engine w it count is same read good safe
        enough =
      let (r, run, n) = value (next_in it es (e ∷ ws) is same) in
      let (it', r_is, is', same') = one_more it e ws r n in
      let (engine', made, safe') = value (replay_command-IsSafe engine cmd good.0 safe) in
      let rest =
        replay-IsReplayed cmds ws ws fuel engine' w it' (count + 1) is' same' read.1 good.1 safe'
          (omega arith) in
      rw (run, r_is, read.0, made)
        (mono rest
          λ (r', w') (kept, last, r'_is, all, safe''). (kept, last, r'_is, rw made all, safe''))
  replay-IsReplayed [] (e ∷ ws) es (suc fuel) engine w it count is same read good safe enough =
      absurd read
  replay-IsReplayed (cmd ∷ cmds) [] es (suc fuel) engine w it count is same read good safe enough =
      absurd read
