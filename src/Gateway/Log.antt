-- ===== src/Gateway/Log.antt =====
-- src/gateway.rs: `let _ = w.append(&cmd)` with the log of src/wal.rs, which has the laws that the
-- matching thread relies on.
use ferrox.Prelude.{
  Bool, List, Option, bind, false, returns, some, ℕ, ◌<◌, ◌>>=◌, ◌≡◌, ◌≤◌, Returns,
}
use ferrox.Wal.{Wal, append}
use ferrox.Wal.Appended.{IsFileLog, append-IsFileLog}
use ferrox.Wal.Records.{Entry}
use ferrox.Protocol.{EngineCommand}

module _ (crc : List ℕ → ℕ) (grants : ℕ → Bool) where
  abbrev pub append_to : EngineCommand → Wal → Option Wal
  append_to cmd w = do (_, w') ← append crc grants w cmd; some w'

  -- The log has some records, in a file of less than 2 ^ 63 bytes.
  abbrev pub IsKept : Wal → Type 0
  IsKept w = (es : List Entry) × IsFileLog crc grants es w

  pub append_to-IsKept :
      (limit : (size : ℕ) → 9_223_372_036_854_775_808 ≤ size → grants size ≡ false)
      (u32 : (bytes : List ℕ) → crc bytes < 4_294_967_296) (cmd : EngineCommand) (w : Wal)
      → IsKept w
      → Returns IsKept (append_to cmd w)
  append_to-IsKept limit u32 cmd w (es, is) =
      bind (append-IsFileLog crc grants limit u32 w es cmd is) (λ (r, w') kept. returns kept)
