-- ===== src/Gateway/Tests.antt =====
-- The theorems of the gateway at a short run of commands.
use ferrox.Prelude.{
  Option, false, ok, refl, true, ℕ, ◌++◌, ◌+◌, ◌<◌, ◌≡◌, Returns, arith, replicate, some, ◌∷◌, List,
  [],
}
use ferrox.Book.Tests.{two, view_two, two-IsBook, only_bid}
use ferrox.Protocol.{
  decode_cancel_order, decode_message, get_range, message_size, read_u64, read_u8, cancel_order,
  new_order, EngineCommand,
}
use ferrox.Gateway.{State, process_all}
use ferrox.Gateway.Loop.{Seen, got, nothing, Running, matching_loop, matching_loop-process_all}
use ferrox.Snapshot.Files.{files}
use ferrox.Snapshot.Tests.{format, system, format-HasFields}
use ferrox.Gateway.Safety.{IsSound, process_all-IsSafe}
use ferrox.Protocol.Bytes.{byte, from_le, slice}
use ferrox.Protocol.Tests.{byte-are_bytes}
use ferrox.Gateway.Client.{AllPushed, handle_client, handle_client-AllCommands, turn}
use ferrox.Gateway.Log.{IsKept, append_to, append_to-IsKept}
use ferrox.Wal.{Wal}
use ferrox.Wal.Tests.{both, check_sum, check_sum_lt, log, log-IsWal, sizes, sizes_limit}

-- The log of two records, in a file that grows once.
abbrev append_small : EngineCommand → Wal → Option Wal
append_small = append_to check_sum sizes

keeps :
    (cmd : EngineCommand) (w : Wal)
    → IsKept check_sum sizes w
    → Returns (IsKept check_sum sizes) (append_small cmd w)
keeps = append_to-IsKept check_sum sizes sizes_limit check_sum_lt

abbrev start : State Wal
start = record {
  engine = record { book = two; fills_buf = [] };
  wal = some log;
  publisher = record { seq_num = 0; report_buf = replicate 48 0; sent = [] };
}

abbrev commands : List EngineCommand
commands = new_order only_bid ∷ cancel_order 1 ∷ cancel_order 9 ∷ new_order only_bid ∷ []

start-IsSound : IsSound (IsKept check_sum sizes) start
start-IsSound = ((view_two, two-IsBook, λ p q (v, e) a. cc), (both, (log-IsWal, omega arith)))

process_all-IsSafe_example :
    Returns (λ s. IsSound (IsKept check_sum sizes) s) (process_all append_small commands start)
process_all-IsSafe_example =
    process_all-IsSafe append_small (IsKept check_sum sizes) keeps commands start
      ((omega arith, omega arith), (tt, (tt, ((omega arith, omega arith), tt)))) start-IsSound

-- A client that sends a cancellation of the order 3, and closes the stream within the next message.
abbrev stream : List ℕ
stream = 2 ∷ (replicate 7 0 ++ (3 ∷ (replicate 7 0 ++ (1 ∷ 0 ∷ []))))

small : (i : ℕ) → byte stream i < 256
small i = byte-are_bytes stream refl i

handle_client-AllCommands_example : Returns AllPushed (handle_client 19 (λ n. n + 5) 0 stream)
handle_client-AllCommands_example =
    handle_client-AllCommands 19 (λ n. n + 5) 0 stream small (omega arith)

handle_client_run : handle_client 19 (λ n. n + 5) 0 stream ≡ some (ok tt, cancel_order 3 ∷ [], true)
unfolding handle_client turn message_size decode_message decode_cancel_order read_u8 read_u64
    get_range slice from_le
handle_client_run = refl

-- A snapshot is due after each two commands; one command is drained.
abbrev seen : List Seen
seen =
    got (new_order only_bid)
    ∷ nothing false
    ∷ got (cancel_order 1)
    ∷ nothing true
    ∷ got (cancel_order 9)
    ∷ nothing false
    ∷ []

abbrev running : Running Wal
running = record { state = start; snapshot_dir = some (files []); cmds_since_snapshot = 0 }

matching_loop-process_all_example :
    Returns
      (λ (s : Running Wal).
        process_all append_small (new_order only_bid ∷ cancel_order 1 ∷ cancel_order 9 ∷ []) start
        ≡ some s.state)
      (matching_loop append_small (λ w. w.record_count) format system 2 seen running)
matching_loop-process_all_example =
    matching_loop-process_all append_small (λ w. w.record_count) format system 2 format-HasFields
      (IsKept check_sum sizes) keeps seen running ((omega arith, omega arith), (tt, (tt, tt)))
      start-IsSound
