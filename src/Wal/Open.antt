-- ===== src/Wal/Open.antt =====
-- `Wal::open`: of a file that starts with records the log keeps these, and zeros follow the last one.
use mathlib.Core.Path.{subst}
use ferrox.Prelude.{
  Bool, Bool-cases, Option, err, false, inl, inr, ok, true, ap, append-nil, drop, length-append,
  length-replicate, mono, returns, sym, ◌+◌, Returns, append_assoc, arith, bind, if◌then◌else◌,
  length, ltb, refl, replicate, suc, zero, ◌++◌, ◌-◌, ◌∙◌, ◌∷◌, ◌≡◌, ◌≤◌, ℕ, List, [],
}
use ferrox.Protocol.{new_order_size}
use ferrox.Protocol.Bytes.{from_le}
use ferrox.Wal.{
  io, OpenCall, Opening, or_io, open_path, metadata, extend, map_file, cut, extend_again, map_again,
  set_len, Wal, scan_records, open_with_size,
}
use ferrox.Wal.Slices.{replicate-add, set_len-grow, set_len-cut}
use ferrox.Wal.Records.{
  AreEntries-append, log_bytes-append, Entry, AreEntries, entry_bytes, log_bytes,
}
use ferrox.Wal.Scanning.{scan_from-log}

module _ (crc : List ℕ → ℕ) where
  -- The mapping holds the records, and every byte behind the last one is zero.
  pub record IsWal (w : Wal) (es : List Entry) : Type 0 where
    pub are : AreEntries crc es
    pub room : ℕ
    pub mmap_is : w.mmap ≡ log_bytes es ++ replicate room 0
    pub write_is : w.write_pos ≡ length (log_bytes es)
    pub mapped_is : w.mapped_size ≡ length w.mmap
    pub count_is : w.record_count ≡ length es
    pub buf_is : length w.encode_buf ≡ new_order_size

  zeros-from_le : (bs ys : List ℕ) (k : ℕ) → replicate k 0 ≡ bs ++ ys → from_le bs ≡ 0
  unfolding from_le
  zeros-from_le [] ys k e = refl
  zeros-from_le (b ∷ bs) ys zero e = cc
  zeros-from_le (b ∷ bs) ys (suc k) e =
      let first : 0 ≡ b = cc in
      let rest : replicate k 0 ≡ bs ++ ys = cc in omega (arith, zeros-from_le bs ys k rest)

  -- Zeros are no record.
  zeros-log_bytes :
      (es : List Entry) (ys : List ℕ) (k : ℕ)
      → AreEntries crc es
      → replicate k 0 ≡ log_bytes es ++ ys
      → es ≡ []
  zeros-log_bytes [] ys k are e = refl
  zeros-log_bytes (e ∷ es) ys k are same =
      let is = are.0 in
      let behind : List ℕ = e.crc_bytes ++ (e.payload ++ (e.padding ++ (log_bytes es ++ ys))) in
      let assoc : (entry_bytes e ++ log_bytes es) ++ ys ≡ e.len_bytes ++ behind =
        simp append_assoc in
      absurd (
        omega
          (arith, zeros-from_le e.len_bytes behind k (same ∙ assoc), is.len_is, is.some_payload))

  AreEntries-behind : (es fs : List Entry) → AreEntries crc (es ++ fs) → AreEntries crc fs
  AreEntries-behind [] fs are = are
  AreEntries-behind (e ∷ es) fs are = AreEntries-behind es fs are.1

  -- What `open` makes of a file that starts with records: these, and what follows of the rest; or the
  -- error of a call that the system refuses, and a file that still starts with them.
  abbrev pub Opened : (OpenCall → Bool) → List Entry → List ℕ → Opening → Type 0
  Opened grants es ys (ok w, file) =
      (more : List Entry) × (rest : List ℕ) × IsWal w (es ++ more)
      × (ys ++ replicate (length w.mmap - length (log_bytes es ++ ys)) 0 ≡ log_bytes more ++ rest)
      × (file ≡ w.mmap)
  Opened grants es ys (err e, file) =
      (e ≡ io)
      × (c : OpenCall) × (grants c ≡ false)
      × (rest : List ℕ) × (file ≡ log_bytes es ++ rest)

  -- A call is refused, and the file starts with the records, or what follows has its promise.
  or_io-Opened :
      (grants : OpenCall → Bool) (es : List Entry) (ys : List ℕ) (c : OpenCall) (file rest : List ℕ)
      {next : Option Opening}
      → file ≡ log_bytes es ++ rest
      → Returns (Opened grants es ys) next
      → Returns (Opened grants es ys) (or_io (grants c) file next)
  or_io-Opened grants es ys c file rest starts then_next = elim (Bool-cases (grants c)) [
    | inl granted ↦ rw granted then_next
    | inr refused ↦ rw refused (returns (refl, c, refused, rest, starts))
  ]

  -- Opening a file that starts with records, whatever follows them, such as a torn record or what an
  -- earlier crash left, does not panic. If the system grants the calls, the log keeps all of these
  -- records in their places, holds besides only records that the file has right behind them, and zeros
  -- follow the last one; if it refuses one, that is reported and the file still starts with the records.
  pub open_with_size-Opened :
      (grants : OpenCall → Bool) (es : List Entry) (ys : List ℕ) (initial_size : ℕ)
      → AreEntries crc es
      → Returns (Opened grants es ys) (open_with_size crc grants (log_bytes es ++ ys) initial_size)
  unfolding open_with_size scan_records
  open_with_size-Opened grants es ys initial_size are =
      let file : List ℕ = log_bytes es ++ ys in
      let size : ℕ = if ltb (length file) initial_size then initial_size else length file in
      let enough : length file ≤ size = ground arith in
      let zeros : List ℕ = replicate (size - length file) 0 in
      let buf_is : set_len size file ≡ log_bytes es ++ (ys ++ zeros) =
        set_len-grow size file enough ∙ append_assoc (log_bytes es) ys zeros in
      let walk =
        scan_from-log crc es (suc (length (set_len size file))) (set_len size file) [] (ys ++ zeros)
          0 buf_is are (omega arith) in
      or_io-Opened grants es ys open_path file ys refl (
        or_io-Opened grants es ys metadata file ys refl (
          extending (
            or_io-Opened grants es ys (map_file size) (set_len size file) (ys ++ zeros) buf_is (
              bind walk λ scan (more, ok_more, ys_are, end_is, count_is).
                let log : List ℕ = log_bytes (es ++ more) in
                let rest : List ℕ = drop scan.end (set_len size file) in
                let both = log_bytes-append es more in
                let n = ap (λ zs. length zs) both in
                let m = length-append (log_bytes es) (log_bytes more) in
                let whole : set_len size file ≡ log ++ rest =
                  buf_is
                  ∙ ap (λ zs. log_bytes es ++ zs) ys_are
                  ∙ sym (append_assoc (log_bytes es) (log_bytes more) rest)
                  ∙ ap (λ zs. zs ++ rest) (sym both) in
                let cut_is : set_len scan.end (set_len size file) ≡ log =
                  ap (set_len scan.end) whole ∙ set_len-cut scan.end log rest (omega arith) in
                let sized : length (set_len size file) ≡ size =
                  ap (λ zs. length zs) (set_len-grow size file enough)
                  ∙ omega (
                    arith,
                    length-append file zeros,
                    length-replicate {A = ℕ} (size - length file) 0,
                  ) in
                let fits : length log ≤ size =
                  omega (arith, ap (λ zs. length zs) whole, length-append log rest) in
                let made : set_len size (set_len scan.end (set_len size file))
                    ≡ log ++ replicate (size - length log) 0 =
                  ap (set_len size) cut_is ∙ set_len-grow size log fits in
                let mapped : length (set_len size (set_len scan.end (set_len size file))) ≡ size =
                  ap (λ zs. length zs) made
                  ∙ omega (
                    arith,
                    length-append log (replicate (size - length log) 0),
                    length-replicate {A = ℕ} (size - length log) 0,
                  ) in
                or_io-Opened grants es ys (cut scan.end) (set_len size file) (ys ++ zeros) buf_is (
                  or_io-Opened grants es ys (extend_again size)
                    (set_len scan.end (set_len size file)) (log_bytes more) (cut_is ∙ both)
                    (or_io-Opened grants es ys (map_again size)
                      (set_len size (set_len scan.end (set_len size file)))
                      (log_bytes more ++ replicate (size - length log) 0)
                      (made
                        ∙ ap (λ zs. zs ++ replicate (size - length log) 0) both
                        ∙ append_assoc (log_bytes es) (log_bytes more)
                            (replicate (size - length log) 0))
                      (returns (
                        more,
                        rest,
                        record {
                          are = AreEntries-append crc es more are ok_more;
                          room = size - length log;
                          mmap_is = made;
                          write_is = omega arith;
                          mapped_is = sym mapped;
                          count_is = omega (arith, length-append es more);
                          buf_is = length-replicate {A = ℕ} new_order_size 0;
                        },
                        ap (λ (k : ℕ). ys ++ replicate (k - length file) 0) mapped ∙ ys_are,
                        refl,
                      ))))))))
    where
      extending :
          {next : Option Opening}
          → Returns (Opened grants es ys) next
          → Returns (Opened grants es ys) (
              or_io
                (if ltb (length (log_bytes es ++ ys)) initial_size
                  then grants (extend initial_size)
                  else true)
                (log_bytes es ++ ys)
                next)
      extending good = elim (Bool-cases (ltb (length (log_bytes es ++ ys)) initial_size)) [
        | inl smaller ↦
            rw smaller
              (or_io-Opened grants es ys (extend initial_size) (log_bytes es ++ ys) ys refl good)
        | inr fits ↦ rw fits good
      ]

  -- What opening a closed log again gives.
  abbrev pub IsReopened : (OpenCall → Bool) → List Entry → Opening → Type 0
  IsReopened grants es (ok w, file) = IsWal w es × (file ≡ w.mmap)
  IsReopened grants es (err e, file) =
      (e ≡ io)
      × (c : OpenCall) × (grants c ≡ false)
      × (rest : List ℕ) × (file ≡ log_bytes es ++ rest)

  -- A log that is closed and opened again, with any initial size, holds the same records, if the system
  -- grants the calls; if it refuses one, that is reported and the file still starts with the records.
  pub open_with_size-IsWal :
      (grants : OpenCall → Bool) (w : Wal) (es : List Entry) (initial_size : ℕ)
      → IsWal w es
      → Returns (IsReopened grants es) (open_with_size crc grants w.mmap initial_size)
  open_with_size-IsWal grants w es initial_size is =
      subst (λ file. Returns (IsReopened grants es) (open_with_size crc grants file initial_size))
        (sym is.mmap_is)
        (mono (open_with_size-Opened grants es (replicate is.room 0) initial_size is.are) reopened)
    where
      reopened : (o : Opening) → Opened grants es (replicate is.room 0) o → IsReopened grants es o
      reopened (err e, file) refused = refused
      reopened (ok w', file) (more, rest, is', zeros, same) =
          let k : ℕ = length w'.mmap - length (log_bytes es ++ replicate is.room 0) in
          let joined : replicate (is.room + k) 0 ≡ log_bytes more ++ rest =
            replicate-add is.room k (is.room + k) 0 refl ∙ zeros in
          let none_more : more ≡ [] =
            zeros-log_bytes more rest (is.room + k) (AreEntries-behind es more is'.are) joined in
          (subst (λ fs. IsWal w' fs) (ap (λ fs. es ++ fs) none_more ∙ append-nil es) is', same)
