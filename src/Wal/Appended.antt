-- ===== src/Wal/Appended.antt =====
-- `Wal::append` of a command, on every branch.
use mathlib.Core.Path.{subst}
use mathlib.Core.Bool.{true≢false}
use ferrox.Prelude.{
  ltb, mono, ◌%◌, Returns, bind, returns, some, true, ◌<◌, ◌>>=◌, Bool, Bool-cases, Result, ap,
  append_assoc, arith, err, false, inl, inr, leb, length, length-append, length-replicate, max, ok,
  refl, replicate, sym, ◌*◌, ◌++◌, ◌+◌, ◌-◌, ◌∙◌, ◌∷◌, ◌≡◌, ◌≤◌, ℕ, List, [],
}
use ferrox.Protocol.{EngineCommand}
use ferrox.Wal.{
  set_len, Wal, WalError, io, ensure_capacity, append, append_encoded, write_record, align_up,
  header_size, get_slice,
}
use ferrox.Wal.Slices.{length-slice, set_len-grow, replicate-add}
use ferrox.Wal.Records.{Entry, log_bytes}
use ferrox.Wal.Open.{IsWal}
use ferrox.Wal.Append.{entry_of, write_record-IsWal}
use ferrox.Wal.Encode.{IsWritten, encode_command-IsWritten}
use ferrox.Protocol.Bytes.{slice}

module _ (crc : List ℕ → ℕ) (grants : ℕ → Bool) where
  -- A log in a file of less than 2 ^ 63 bytes.
  abbrev pub IsFileLog : List Entry → Wal → Type 0
  IsFileLog es w = IsWal crc w es × (w.mapped_size < 9_223_372_036_854_775_808)

  -- What `append` promises: the record number and one record more, of a payload with a property, or
  -- the error of a system that grants no larger file, and the same records.
  pub data IsAppended (es : List Entry) (Holds : List ℕ → Type 0)
      : Result WalError ℕ × Wal → Type 0 where
    appended :
        {w : Wal} {n : ℕ} (e : Entry)
        → n ≡ length es + 1
        → IsFileLog (es ++ e ∷ []) w
        → Holds e.payload
        → IsAppended es Holds (ok n, w)
    refused :
        {w : Wal} (size : ℕ)
        → grants size ≡ false
        → IsFileLog es w
        → IsAppended es Holds (err io, w)

  -- What `ensure_capacity` promises.
  abbrev HasRoom : List Entry → Wal → ℕ → Result WalError Wal → Type 0
  HasRoom es w needed (ok w') =
      IsFileLog es w' × (w'.write_pos + needed ≤ w'.mapped_size) × (w'.encode_buf ≡ w.encode_buf)
  HasRoom es w needed (err e) = (e ≡ io) × ((size : ℕ) × (grants size ≡ false))

  -- The system has no files of 2 ^ 63 bytes or more.
  module _ (limit : (size : ℕ) → 9_223_372_036_854_775_808 ≤ size → grants size ≡ false) where
    ensure_capacity-HasRoom :
        (w : Wal) (es : List Entry) (needed : ℕ)
        → IsFileLog es w
        → needed ≤ 64
        → HasRoom es w needed (ensure_capacity grants w needed)
    unfolding ensure_capacity
    ensure_capacity-HasRoom w es needed (is, small) few =
        let size : ℕ = max (w.mapped_size * 2) (w.write_pos + needed) in
        let in_file : w.write_pos ≤ w.mapped_size = omega (
          arith,
          is.write_is,
          is.mapped_is,
          ap (λ zs. length zs) is.mmap_is,
          length-append (log_bytes es) (replicate is.room 0),
        ) in
        let doubled : w.mapped_size * 2 % 18_446_744_073_709_551_616 ≡ w.mapped_size * 2 =
          omega arith in
        let sum : (w.write_pos + needed) % 18_446_744_073_709_551_616 ≡ w.write_pos + needed =
          omega arith in
        rw (doubled, sum)
          (elim (Bool-cases (leb (w.write_pos + needed) w.mapped_size)) [
            | inl fits ↦ rw fits ((is, small), ground arith, refl)
            | inr larger ↦ rw larger (elim (Bool-cases (grants size)) [
              | inr no_room ↦ rw no_room (refl, (size, no_room))
              | inl granted ↦
                  let log : List ℕ = log_bytes es in
                  let n = is.mapped_is in
                  let made : set_len size w.mmap
                      ≡ log ++ replicate (is.room + (size - length w.mmap)) 0 =
                    set_len-grow size w.mmap (omega arith)
                    ∙ ap (λ zs. zs ++ replicate (size - length w.mmap) 0) is.mmap_is
                    ∙ append_assoc log (replicate is.room 0) (replicate (size - length w.mmap) 0)
                    ∙ ap (λ zs. log ++ zs)
                        (sym (
                          replicate-add is.room (size - length w.mmap)
                            (is.room + (size - length w.mmap)) 0 refl)) in
                  let grown : length (set_len size w.mmap) ≡ size =
                    ap (λ zs. length zs) (set_len-grow size w.mmap (omega arith))
                    ∙ omega (
                      arith,
                      length-append w.mmap (replicate (size - length w.mmap) 0),
                      length-replicate {A = ℕ} (size - length w.mmap) 0,
                    ) in
                  let within : size < 9_223_372_036_854_775_808 =
                    elim (Bool-cases (ltb size 9_223_372_036_854_775_808)) [
                      | inl less ↦ ground arith
                      | inr more ↦ absurd (true≢false (sym granted ∙ limit size (ground arith)))
                    ] in
                  rw granted (
                    (
                      record {
                        are = is.are;
                        room = is.room + (size - length w.mmap);
                        mmap_is = made;
                        write_is = is.write_is;
                        mapped_is = sym grown;
                        count_is = is.count_is;
                        buf_is = is.buf_is;
                      },
                      within,
                    ),
                    omega arith,
                    refl,
                  )
            ])
          ])

    module _ (u32 : (bytes : List ℕ) → crc bytes < 4_294_967_296) where
      append_encoded-IsAppended :
          (w : Wal) (es : List Entry) (Holds : List ℕ → Type 0) (n : ℕ)
          → IsFileLog es w
          → 0 < n
          → n ≤ 40
          → Holds (slice n 0 w.encode_buf)
          → Returns (IsAppended es Holds) (append_encoded crc grants w n)
      unfolding append_encoded
      append_encoded-IsAppended w es Holds n (is, small) some_bytes within back =
          go (ensure_capacity grants w (align_up (header_size + n))) (
            ensure_capacity-HasRoom w es (align_up (header_size + n)) (is, small)
              (unfold align_up in omega arith))
        where
          payload : List ℕ
          payload = slice n 0 w.encode_buf

          written :
              (w' : Wal)
              → HasRoom es w (align_up (header_size + n)) (ok w')
              → Returns (IsAppended es Holds) (do
                bs ← get_slice w'.encode_buf 0 n
                w'' ← write_record w' bs (crc bs)
                some (ok w''.record_count, w''))
          written w' ((is', less), room, same) =
              let size = length-slice n 0 w.encode_buf in
              let fits : leb (0 + n) (length w.encode_buf) ≡ true = ground (arith, is.buf_is) in
              let read : get_slice w'.encode_buf 0 n ≡ some payload =
                unfold get_slice in rw (same, fits) in
              let e : Entry = entry_of crc payload in
              rw read (
                bind
                  (write_record-IsWal crc u32 w' es payload is' (omega arith) (omega arith) (
                    subst (λ (k : ℕ). w'.write_pos + align_up (header_size + k) ≤ w'.mapped_size)
                      (sym size) room))
                  λ w'' (done, sized).
                    let count : w''.record_count ≡ length es + 1 =
                      omega (arith, done.count_is, length-append es (e ∷ [])) in
                    returns (appended e count (done, omega arith) back))

          go :
              (r : Result WalError Wal)
              → HasRoom es w (align_up (header_size + n)) r
              → Returns (IsAppended es Holds) (elim r [
                | err x ↦ some (err x, w)
                | ok w' ↦ do
                  bs ← get_slice w'.encode_buf 0 n
                  w'' ← write_record w' bs (crc bs)
                  some (ok w''.record_count, w'')
              ])
          go (ok w') room = written w' room
          go (err x) (e, none_granted) =
              let (size, no_room) = none_granted in
              rw e (returns (refused size no_room (is, small)))

      -- For the bytes that the encoder leaves.
      append_written :
          (w : Wal) (es : List Entry) (cmd : EngineCommand) (Holds : List ℕ → Type 0)
          (p : IsWritten w.encode_buf cmd)
          → IsFileLog es w
          → Holds (slice p.size 0 p.left)
          → Returns (IsAppended es Holds) (append crc grants w cmd)
      unfolding append
      append_written w es cmd Holds p (is, small) holds =
          rw (p.encoded, append)
            (append_encoded-IsAppended (record w { encode_buf = p.left }) es Holds p.size
              (
                record {
                  are = is.are;
                  room = is.room;
                  mmap_is = is.mmap_is;
                  write_is = is.write_is;
                  mapped_is = is.mapped_is;
                  count_is = is.count_is;
                  buf_is = p.left_size;
                },
                small,
              )
              p.some_bytes p.within holds)

      -- Appending any command keeps a log.
      pub append-IsFileLog :
          (w : Wal) (es : List Entry) (cmd : EngineCommand)
          → IsFileLog es w
          → Returns (λ (r, w'). (fs : List Entry) × IsFileLog fs w') (append crc grants w cmd)
      append-IsFileLog w es cmd is =
          mono
            (append_written w es cmd (λ payload. Unit)
              (encode_command-IsWritten w.encode_buf cmd is.0.buf_is) is tt)
            kept
        where
          kept :
              (r : Result WalError ℕ × Wal)
              → IsAppended es (λ payload. Unit) r
              → (fs : List Entry) × IsFileLog fs r.1
          kept r (appended e number is' holds) = (es ++ e ∷ [], is')
          kept r (refused size no_room is') = (es, is')
