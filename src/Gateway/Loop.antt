-- ===== src/Gateway/Loop.antt =====
-- src/gateway.rs: `matching_loop`, with the snapshots that it saves and the drain at shutdown. What
-- the ring and the flag show to the thread is a list.
use mathlib.Core.Path.{subst}
use ferrox.Prelude.{
  ◌%◌, Bool, Bool-cases, Option, Returns, ap, false, if◌then◌else◌, inl, inr, ltb, mono, none, refl,
  returns, reverse, some, sym, true, value, ℕ, ◌++◌, ◌+◌, ◌>>=◌, ◌∙◌, ◌≡◌, List, [], ◌∷◌,
}
use ferrox.Matching.Uncrossed.{IsSafe}
use ferrox.Book.Resting.{orders_in, all_resting_orders-queues}
use ferrox.Protocol.{EngineCommand}
use ferrox.Snapshot.{Format, FileSystem, capture, save}
use ferrox.Snapshot.Files.{Dir}
use ferrox.Snapshot.Latest.{HasFields}
use ferrox.Gateway.{State, process_command, process_all}
use ferrox.Gateway.Safety.{IsSound, process_command-IsSound, AllCommands, process_all-IsSafe}
use ferrox.Order.{Order}

-- What a turn of the loop sees: a command, or an empty ring and whether the flag of the shutdown is
-- set.
pub data Seen : Type 0 where
  got : EngineCommand → Seen
  nothing : (shutdown : Bool) → Seen

-- The commands of the inner loop, up to the first empty ring.
abbrev pub drained : List Seen → List EngineCommand
drained [] = []
drained (got cmd ∷ seen) = cmd ∷ drained seen
drained (nothing shutdown ∷ seen) = []

-- The variables of the loop, and the directory of the snapshots, if there is one.
pub record Running (Wal : Type 0) : Type 0 where
  pub state : State Wal
  pub snapshot_dir : Option Dir
  pub cmds_since_snapshot : ℕ

module _ {Wal : Type 0} (append : EngineCommand → Wal → Option Wal) (record_count : Wal → ℕ)
    (f : Format) (sys : FileSystem) (snapshot_interval : ℕ) where
  -- What follows a command: the snapshot, if there are a log and a directory and it is time.
  unfoldable pub save_at : Option Wal → Option Dir → Running Wal → Option (Running Wal)
  save_at none dir s = some s
  save_at (some w) none s = some s
  save_at (some w) (some dir) s = if ltb s.cmds_since_snapshot snapshot_interval then some s else do
    snap ← capture f s.state.engine (record_count w)
    let (_, dir') = save f sys snap dir
    some (record s { snapshot_dir = some dir'; cmds_since_snapshot = 0 })

  -- A turn that pops a command.
  unfoldable pub run_command : EngineCommand → Running Wal → Option (Running Wal)
  run_command cmd s = do
    state ← process_command append cmd s.state
    save_at state.wal s.snapshot_dir (record s {
      state = state;
      cmds_since_snapshot = (s.cmds_since_snapshot + 1) % 18_446_744_073_709_551_616;
    })

  unfoldable pub matching_loop : List Seen → Running Wal → Option (Running Wal)
  matching_loop [] s = some s
  matching_loop (got cmd ∷ seen) s = do s' ← run_command cmd s; matching_loop seen s'
  matching_loop (nothing false ∷ seen) s = matching_loop seen s
  matching_loop (nothing true ∷ seen) s = do
    state ← process_all append (drained seen) s.state
    some (record s { state = state })

  -- The commands that are popped.
  abbrev pub popped : List Seen → List EngineCommand
  popped [] = []
  popped (got cmd ∷ seen) = cmd ∷ popped seen
  popped (nothing false ∷ seen) = popped seen
  popped (nothing true ∷ seen) = drained seen

  -- The same engine, log and publisher.
  abbrev SameState : State Wal → Running Wal → Type 0
  SameState state s = s.state ≡ state

  module _ (total : HasFields f) where
    save_at-SameState :
        (wal : Option Wal) (dir : Option Dir) (s : Running Wal)
        → IsSafe s.state.engine
        → Returns (SameState s.state) (save_at wal dir s)
    unfolding save_at capture
    save_at-SameState none dir s safe = returns refl
    save_at-SameState (some w) none s safe = returns refl
    save_at-SameState (some w) (some dir) s (v, is, un) =
        elim (Bool-cases (ltb s.cmds_since_snapshot snapshot_interval)) [
          | inl early ↦ rw early (returns refl)
          | inr due ↦
              let book = s.state.engine.book in
              let os : List Order = orders_in v.asks ++ orders_in (reverse v.bids) in
              let (bytes, made) = total (record_count w) book.best_bid book.best_ask os in
              rw (due, all_resting_orders-queues book v is, made) (returns refl)
        ]

    -- Whatever the thread sees of the ring and of the flag, if the commands are such that the engine
    -- takes them, and from an engine with the book invariant and an uncrossed book and a log whose
    -- appends do not panic and keep its invariant, or none, where the fields of a snapshot always have
    -- bytes: the loop does not panic, and the engine, the log and the reports are those that the
    -- commands popped make one after the other, whether and however often snapshots are saved, and the
    -- last ones are run in the drain.
    pub matching_loop-process_all :
        (IsLog : Wal → Type 0)
        (keeps : (cmd : EngineCommand) (w : Wal) → IsLog w → Returns IsLog (append cmd w))
        (seen : List Seen) (s : Running Wal)
        → AllCommands (popped seen)
        → IsSound IsLog s.state
        → Returns
            (λ (s' : Running Wal). process_all append (popped seen) s.state ≡ some s'.state)
            (matching_loop seen s)
    unfolding matching_loop run_command process_all
    matching_loop-process_all IsLog keeps [] s good safe = returns refl
    matching_loop-process_all IsLog keeps (nothing false ∷ seen) s good safe =
        matching_loop-process_all IsLog keeps seen s good safe
    matching_loop-process_all IsLog keeps (nothing true ∷ seen) s good safe =
        let (state, run, left) =
          value (process_all-IsSafe append IsLog keeps (drained seen) s.state good safe) in
        rw run (returns refl)
    matching_loop-process_all IsLog keeps (got cmd ∷ seen) s good safe =
        let (state, run, left) =
          value (process_command-IsSound append IsLog keeps cmd s.state good.0 safe) in
        let counted : Running Wal = record s {
          state = state;
          cmds_since_snapshot = (s.cmds_since_snapshot + 1) % 18_446_744_073_709_551_616;
        } in
        let (s', saved, same) = value (save_at-SameState state.wal s.snapshot_dir counted left.0) in
        let rest =
          matching_loop-process_all IsLog keeps seen s' good.1
            (subst (λ (t : State Wal). IsSound IsLog t) (sym same) left) in
        rw (run, saved)
          (mono rest λ s'' all. ap (process_all append (popped seen)) (sym same) ∙ all)
