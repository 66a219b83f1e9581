-- ===== src/Gateway.antt =====
-- src/gateway.rs: the commands that the matching thread takes off the ring, in their order. The
-- log is an interface: the log that `append` leaves, its result ignored, or `none` where it panics.
-- What is sent over UDP is a list.
pub mod Client
pub mod Log
pub mod Loop
pub mod Safety
mod Tests
use ferrox.Prelude.{none, Result, err, map, ok, some, ◌%◌, ◌+◌, ◌>>=◌, ◌∷◌, ℕ, List, Option, []}
use ferrox.Matching
use ferrox.Matching.{MatchingError, MatchingEngine, Fill, AddOrderResult, add_order}
use ferrox.Protocol.{cancel_order, new_order, EngineCommand, ProtocolError, encode_execution_report}

-- `seq_num`, `report_buf` and the datagrams that were sent, the last one first.
pub record Publisher : Type 0 where
  pub seq_num : ℕ
  pub report_buf : List ℕ
  pub sent : List (List ℕ)

-- An execution report that could be encoded is sent.
abbrev pub send : ℕ → Publisher → Result ProtocolError (ℕ × List ℕ) → Publisher
send seq_num p (ok (size, buf)) = record {
  seq_num = seq_num;
  report_buf = buf;
  sent = buf ∷ p.sent;
}
send seq_num p (err e) = record p { seq_num = seq_num }

-- `for fill in result.fills`
unfoldable pub publish : (timestamp : ℕ) → List Fill → Publisher → Publisher
publish timestamp [] p = p
publish timestamp (f ∷ fills) p =
    let seq_num : ℕ = (p.seq_num + 1) % 4_294_967_296 in
    publish timestamp fills
      (send seq_num p (encode_execution_report p.report_buf seq_num f timestamp))

-- What `process_command` changes; the log, if there is one, is in any state of its own.
pub record State (Wal : Type 0) : Type 0 where
  pub engine : MatchingEngine
  pub wal : Option Wal
  pub publisher : Publisher

module _ {Wal : Type 0} (append : EngineCommand → Wal → Option Wal) where
  -- `if let Some(w) = wal`: the result of `append` is ignored, but it may panic.
  unfoldable pub log_command : EngineCommand → Option Wal → Option (Option Wal)
  log_command cmd none = some none
  log_command cmd (some w) = do w' ← append cmd w; some (some w')

  -- What follows `add_order`: an error is dropped.
  abbrev pub report : ℕ → Result MatchingError AddOrderResult → Publisher → Publisher
  report timestamp (ok result) p = publish timestamp result.fills p
  report timestamp (err e) p = p

  unfoldable pub process_command : EngineCommand → State Wal → Option (State Wal)
  process_command cmd s = do
    wal ← log_command cmd s.wal
    elim cmd [
      | new_order order ↦ do
        (r, engine) ← add_order s.engine order
        some (record {
          engine = engine;
          wal = wal;
          publisher = report order.timestamp r s.publisher;
        })
      | cancel_order order_id ↦ do
        (_, engine) ← Matching.cancel s.engine order_id
        some (record s { engine = engine; wal = wal })
    ]

  -- The commands that `consumer.pop` yields, one after the other.
  unfoldable pub process_all : List EngineCommand → State Wal → Option (State Wal)
  process_all [] s = some s
  process_all (cmd ∷ cmds) s = process_command cmd s >>= process_all cmds
