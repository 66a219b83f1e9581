-- ===== src/Gateway/Safety.antt =====
-- The commands that the matching thread runs never make it panic and never cross the book.
use ferrox.Prelude.{Option, none, some, Returns, bind, returns, ◌∷◌, List, []}
use ferrox.Matching.Uncrossed.{IsSafe, add_order-IsSafe}
use ferrox.Matching.CancelSafe.{cancel-IsSafe}
use ferrox.Protocol.{cancel_order, new_order, EngineCommand}
use ferrox.Protocol.Decode.{IsCommand}
use ferrox.Gateway.{log_command, State, process_command, process_all}

-- The decoder lets only such commands through.
abbrev pub AllCommands : List EngineCommand → Type 0
AllCommands [] = Unit
AllCommands (cmd ∷ cmds) = IsCommand cmd × AllCommands cmds

module _ {Wal : Type 0} (IsLog : Wal → Type 0) where
  -- The log, if there is one, is sound, the book too, and it is uncrossed.
  abbrev pub IsLogged : Option Wal → Type 0
  IsLogged none = Unit
  IsLogged (some w) = IsLog w

  abbrev pub IsSound : State Wal → Type 0
  IsSound s = IsSafe s.engine × IsLogged s.wal

module _ {Wal : Type 0} (append : EngineCommand → Wal → Option Wal) (IsLog : Wal → Type 0)
    (keeps : (cmd : EngineCommand) (w : Wal) → IsLog w → Returns IsLog (append cmd w)) where
  log_command-IsLogged :
      (cmd : EngineCommand) (wal : Option Wal)
      → IsLogged IsLog wal
      → Returns (IsLogged IsLog) (log_command append cmd wal)
  unfolding log_command
  log_command-IsLogged cmd none is = returns is
  log_command-IsLogged cmd (some w) is = bind (keeps cmd w is) (λ w' is'. returns is')

  pub process_command-IsSound :
      (cmd : EngineCommand) (s : State Wal)
      → IsCommand cmd
      → IsSound IsLog s
      → Returns (IsSound IsLog) (process_command append cmd s)
  unfolding process_command
  process_command-IsSound (new_order order) s (more, word) (safe, is) =
      bind (log_command-IsLogged (new_order order) s.wal is) λ wal is'.
        bind (add_order-IsSafe s.engine order safe more word)
          (λ (r, engine) left. returns (left, is'))
  process_command-IsSound (cancel_order id) s good (safe, is) =
      bind (log_command-IsLogged (cancel_order id) s.wal is)
        λ wal is'. bind (cancel-IsSafe s.engine id safe) (λ (r, engine) left. returns (left, is'))

  -- From an engine with the book invariant and an uncrossed book, and a log whose appends do not panic
  -- and keep its invariant, or none, every sequence of commands whose orders have positive `u64`
  -- quantities is run to its end without a panic, and leaves such an engine and log.
  pub process_all-IsSafe :
      (cmds : List EngineCommand) (s : State Wal)
      → AllCommands cmds
      → IsSound IsLog s
      → Returns (IsSound IsLog) (process_all append cmds s)
  unfolding process_all
  process_all-IsSafe [] s good sound = returns sound
  process_all-IsSafe (cmd ∷ cmds) s good sound =
      bind (process_command-IsSound cmd s good.0 sound)
        (λ s' left. process_all-IsSafe cmds s' good.1 left)
