-- ===== src/Gateway/Client.antt =====
-- src/gateway.rs: `handle_client` over the bytes that a client sends before it closes the stream. The
-- clock is a parameter; a full ring is waited for, so that every command is pushed.
use ferrox.Prelude.{
  length-drop_le, Bool, Bool-cases, Result, Returns, arith, bind, drop, err, false, if◌then◌else◌,
  inl, inr, length, ltb, none, ok, refl, returns, some, suc, take, true, zero, ◌-◌, ◌<◌, ◌>>=◌, ◌∷◌,
  ◌≡◌, ℕ, List, Option, [],
}
use ferrox.Protocol.{
  cancel_order, new_order, EngineCommand, ProtocolError, decode_message, message_size,
}
use ferrox.Protocol.Bytes.{byte}
use ferrox.Protocol.Decode.{IsCommand, decode_message-IsCommand}
use ferrox.Gateway.Safety.{AllCommands}

-- `order.timestamp = now_nanos()`
abbrev pub stamp : (now : ℕ) → EngineCommand → EngineCommand
stamp now (new_order order) = new_order (record order { timestamp = now })
stamp now (cancel_order id) = cancel_order id

-- What a turn of the loop comes to: the stream is closed, an error is returned, or a command is
-- pushed and the rest of the stream is left.
pub data Turn : Type 0 where
  closed : Turn
  failed : ProtocolError → Turn
  pushed : EngineCommand → List ℕ → Turn

unfoldable pub turn : (now : ℕ) → List ℕ → Turn
turn now [] = closed
turn now (msg_type ∷ stream) = elim (message_size msg_type) [
  | err e ↦ failed e
  | ok size ↦
      if ltb (length stream) (size - 1)
      then closed
      else elim (decode_message (msg_type ∷ take (size - 1) stream)) [
        | err e ↦ failed e
        | ok cmd ↦ pushed (stamp now cmd) (drop (size - 1) stream)
      ]
]

-- The result, the commands in the order in which they are pushed, and whether `shutdown` is set. The
-- n-th turn reads `clock n`.
unfoldable pub handle_client :
    (fuel : ℕ) (clock : ℕ → ℕ) (n : ℕ)
    → List ℕ
    → Option (Result ProtocolError (Unit {0}) × List EngineCommand × Bool)
handle_client zero clock n stream = none
handle_client (suc fuel) clock n stream = elim (turn (clock n) stream) [
  | closed ↦ some (ok tt, [], true)
  | failed e ↦ some (err e, [], false)
  | pushed cmd rest ↦ do
    (r, cmds, shutdown) ← handle_client fuel clock (suc n) rest
    some (r, cmd ∷ cmds, shutdown)
]

abbrev pub AreBytes : List ℕ → Type 0
AreBytes buf = (i : ℕ) → byte buf i < 256

byte-take : (n : ℕ) (buf : List ℕ) → AreBytes buf → AreBytes (take n buf)
byte-take zero buf bytes i = omega arith
byte-take (suc n) [] bytes i = omega arith
byte-take (suc n) (b ∷ buf) bytes zero = bytes 0
byte-take (suc n) (b ∷ buf) bytes (suc i) = byte-take n buf (λ j. bytes (suc j)) i

byte-drop : (n : ℕ) (buf : List ℕ) → AreBytes buf → AreBytes (drop n buf)
byte-drop zero buf bytes = bytes
byte-drop (suc n) [] bytes = bytes
byte-drop (suc n) (b ∷ buf) bytes = byte-drop n buf (λ j. bytes (suc j))

-- What is pushed is a command that the engine takes, and the stream gets shorter.
abbrev Good : List ℕ → Turn → Type 0
Good stream closed = Unit
Good stream (failed e) = Unit
Good stream (pushed cmd rest) = IsCommand cmd × AreBytes rest × (length rest < length stream)

stamp-IsCommand : (now : ℕ) (cmd : EngineCommand) → IsCommand cmd → IsCommand (stamp now cmd)
stamp-IsCommand now (new_order order) taken = taken
stamp-IsCommand now (cancel_order id) taken = taken

turn-Good : (now : ℕ) (stream : List ℕ) → AreBytes stream → Good stream (turn now stream)
unfolding turn
turn-Good now [] bytes = tt
turn-Good now (t ∷ stream) bytes = size_known (message_size t)
  where
    message : (n : ℕ) → AreBytes (t ∷ take n stream)
    message n zero = bytes 0
    message n (suc i) = byte-take n stream (λ j. bytes (suc j)) i

    decoded :
        (n : ℕ) (r : Result ProtocolError EngineCommand)
        → decode_message (t ∷ take n stream) ≡ r
        → Good
            (t ∷ stream)
            (elim r [ err e ↦ failed e | ok cmd ↦ pushed (stamp now cmd) (drop n stream) ])
    decoded n (err e) is = tt
    decoded n (ok cmd) is = (
      stamp-IsCommand now cmd (decode_message-IsCommand (t ∷ take n stream) (message n) cmd is),
      byte-drop n stream (λ j. bytes (suc j)),
      omega (arith, length-drop_le n stream),
    )

    size_known :
        (r : Result ProtocolError ℕ)
        → Good (t ∷ stream) (elim r [
          | err e ↦ failed e
          | ok size ↦
              if ltb (length stream) (size - 1)
              then closed
              else elim (decode_message (t ∷ take (size - 1) stream)) [
                | err e ↦ failed e
                | ok cmd ↦ pushed (stamp now cmd) (drop (size - 1) stream)
              ]
        ])
    size_known (err e) = tt
    size_known (ok size) = elim (Bool-cases (ltb (length stream) (size - 1))) [
      | inl short ↦ rw short tt
      | inr enough ↦
          rw enough (decoded (size - 1) (decode_message (t ∷ take (size - 1) stream)) refl)
    ]

-- Every command that was pushed is one that the engine takes.
abbrev pub AllPushed : Result ProtocolError (Unit {0}) × List EngineCommand × Bool → Type 0
AllPushed (r, cmds, shutdown) = AllCommands cmds

-- On any bytes, and with any clock, as many turns as there are bytes, and one more, end the loop, and
-- every command that is pushed is one that the engine takes.
pub handle_client-AllCommands :
    (fuel : ℕ) (clock : ℕ → ℕ) (n : ℕ) (stream : List ℕ)
    → AreBytes stream
    → length stream < fuel
    → Returns AllPushed (handle_client fuel clock n stream)
unfolding handle_client
handle_client-AllCommands zero clock n stream bytes enough = absurd (omega arith)
handle_client-AllCommands (suc fuel) clock n stream bytes enough =
    go (turn (clock n) stream) (turn-Good (clock n) stream bytes)
      (λ rest left shorter. handle_client-AllCommands fuel clock (suc n) rest left shorter)
  where
    go :
        (t : Turn)
        → Good stream t
        → ((rest : List ℕ)
            → AreBytes rest
            → length rest < fuel
            → Returns AllPushed (handle_client fuel clock (suc n) rest))
        → Returns AllPushed (elim t [
          | closed ↦ some (ok tt, [], true)
          | failed e ↦ some (err e, [], false)
          | pushed cmd rest ↦ do
            (r, cmds, shutdown) ← handle_client fuel clock (suc n) rest
            some (r, cmd ∷ cmds, shutdown)
        ])
    go closed good next = returns tt
    go (failed e) good next = returns tt
    go (pushed cmd rest) (taken, left, shorter) next =
        bind (next rest left (omega arith)) λ (r, cmds, shutdown) all. returns (taken, all)
