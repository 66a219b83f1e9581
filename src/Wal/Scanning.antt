-- ===== src/Wal/Scanning.antt =====
-- `scan_records` finds the records at the start of a log, and stops behind the last one.
use mathlib.Core.Path.{subst}
use ferrox.Prelude.{
  length-append, mono, Bool-cases, Returns, bind, count, inl, inr, returns, suc, zero, ◌<◌, ◌||◌,
  ap, append_assoc, arith, drop, false, length, ltb, refl, some, sym, ◌++◌, ◌+◌, ◌-◌, ◌==◌, ◌∙◌,
  ◌∷◌, ◌≡◌, ◌≤◌, ℕ, List, [],
}
use ferrox.Protocol.Bytes.{from_le}
use ferrox.Wal.{align_up, header_size, scan_at, scan_from, Scan, Probe, no_record, found, get_slice}
use ferrox.Wal.Slices.{get_slice-split, get_slice_within}
use ferrox.Wal.Records.{
  length-entry_bytes, Entry, IsEntry, AreEntries, entry_bytes, entry_size, log_bytes, scan_at-found,
  align_up-le,
}

drop-length : (xs ys : List ℕ) → drop (length xs) (xs ++ ys) ≡ ys
drop-length [] ys = refl
drop-length (x ∷ xs) ys = drop-length xs ys

module _ (crc : List ℕ → ℕ) where
  -- What was found at a position.
  abbrev IsFound : List ℕ → ℕ → Probe → Type 0
  IsFound buf at no_record = Unit
  IsFound buf at (found size) =
      (e : Entry) × IsEntry crc e
      × (drop at buf ≡ entry_bytes e ++ drop (at + size) buf)
      × (size ≡ entry_size e)
      × (at + size ≤ length buf)

  whole_record :
      (buf : List ℕ) (at : ℕ) {len_bytes crc_bytes payload : List ℕ}
      → get_slice buf at 4 ≡ some len_bytes
      → get_slice buf (at + 4) 4 ≡ some crc_bytes
      → get_slice buf (at + header_size) (from_le len_bytes) ≡ some payload
      → (from_le len_bytes == 0) ≡ false
      → ltb (length buf) (at + align_up (header_size + from_le len_bytes)) ≡ false
      → from_le crc_bytes ≡ crc payload
      → IsFound buf at (found (align_up (header_size + from_le len_bytes)))
  whole_record buf at {len_bytes} {crc_bytes} {payload} len_read crc_read payload_read long fits
        checks =
      let n : ℕ = from_le len_bytes in
      let size : ℕ = align_up (header_size + n) in
      let enough = align_up-le (header_size + n) in
      let (a, len_size, _) = get_slice-split buf at 4 (at + 4) len_read refl in
      let (b, crc_size, _) = get_slice-split buf (at + 4) 4 (at + 8) crc_read (omega arith) in
      let (c, payload_size, _) = get_slice-split buf (at + 8) n (at + 8 + n) payload_read refl in
      let (padding, pad_read) =
        get_slice_within buf (at + 8 + n) (size - (header_size + n)) (ground arith) in
      let (d, pad_size, _) =
        get_slice-split buf (at + 8 + n) (size - (header_size + n)) (at + size) pad_read
          (omega arith) in
      let e : Entry = record {
        len_bytes = len_bytes;
        crc_bytes = crc_bytes;
        payload = payload;
        padding = padding;
      } in
      let same : align_up (header_size + length payload) ≡ size =
        ap (λ (k : ℕ). align_up (header_size + k)) payload_size in
      (
        e,
        record {
          len_size = len_size;
          len_is = sym payload_size;
          crc_size = crc_size;
          crc_is = checks;
          some_payload = ground arith;
          padded = omega arith;
        },
        a
            ∙ ap (λ ys. len_bytes ++ ys)
                (b ∙ ap (λ ys. crc_bytes ++ ys) (c ∙ ap (λ ys. payload ++ ys) d))
            ∙ simp append_assoc,
        sym same,
        ground arith,
      )

  -- The walk never reads out of bounds, and what it takes for a record is one.
  scan_at-IsFound : (buf : List ℕ) (at : ℕ) → Returns (IsFound buf at) (scan_at crc buf at)
  unfolding scan_at
  scan_at-IsFound buf at = elim (Bool-cases (ltb (length buf) (at + header_size))) [
    | inl past ↦ rw past (returns tt)
    | inr room ↦
        let (len_bytes, len_read) = get_slice_within buf at 4 (ground arith) in
        let n : ℕ = from_le len_bytes in
        rw (room, len_read)
          (elim (Bool-cases (n == 0 || ltb (length buf) (at + align_up (header_size + n)))) [
            | inl none_here ↦ rw none_here (returns tt)
            | inr fits ↦
                let enough = align_up-le (header_size + n) in
                let long : (n == 0) ≡ false = ground arith in
                let inside : ltb (length buf) (at + align_up (header_size + n)) ≡ false =
                  ground arith in
                let (crc_bytes, crc_read) = get_slice_within buf (at + 4) 4 (ground arith) in
                let (payload, payload_read) =
                  get_slice_within buf (at + header_size) n (ground arith) in
                rw (fits, crc_read, payload_read)
                  (elim (Bool-cases (from_le crc_bytes == crc payload)) [
                    | inl checks ↦ rw checks (
                        returns (
                          whole_record buf at len_read crc_read payload_read long inside
                            (ground arith)))
                    | inr broken ↦ rw broken (returns tt)
                  ])
          ])
  ]

  -- What the walk comes to from a position on: the records there, up to one that is none.
  pub record IsScanned (buf : List ℕ) (at count : ℕ) (scan : Scan) : Type 0 where
    pub entries : List Entry
    pub are : AreEntries crc entries
    pub bytes_are : drop at buf ≡ log_bytes entries ++ drop scan.end buf
    pub end_is : scan.end ≡ at + length (log_bytes entries)
    pub count_is : scan.count ≡ count + length entries
    pub within : scan.end ≤ length buf

  -- One record more.
  IsScanned-cons :
      (buf : List ℕ) (at count size : ℕ) (scan : Scan)
      → IsFound buf at (found size)
      → IsScanned buf (at + size) (count + 1) scan
      → IsScanned buf at count scan
  IsScanned-cons buf at count size scan (e, is, here, size_is, inside) rest =
      let n = length-entry_bytes crc e is in
      let m = length-append (entry_bytes e) (log_bytes rest.entries) in
      record {
        entries = e ∷ rest.entries;
        are = (is, rest.are);
        bytes_are =
            here
            ∙ ap (λ ys. entry_bytes e ++ ys) rest.bytes_are
            ∙ sym (append_assoc (entry_bytes e) (log_bytes rest.entries) (drop scan.end buf));
        end_is = omega (arith, rest.end_is);
        count_is = omega (arith, rest.count_is);
        within = rest.within;
      }

  pub scan_from-IsScanned :
      (fuel : ℕ) (buf : List ℕ) (at count : ℕ)
      → at ≤ length buf
      → length buf < at + fuel
      → Returns (IsScanned buf at count) (scan_from crc fuel buf at count)
  unfolding scan_from
  scan_from-IsScanned zero buf at count h enough = absurd (omega arith)
  scan_from-IsScanned (suc fuel) buf at count h enough =
      bind (scan_at-IsFound buf at)
        λ f is. step f is (λ size. scan_from-IsScanned fuel buf (at + size) (count + 1))
    where
      step :
          (f : Probe)
          → IsFound buf at f
          → ((size : ℕ)
              → at + size ≤ length buf
              → length buf < at + size + fuel
              → Returns
                  (IsScanned buf (at + size) (count + 1))
                  (scan_from crc fuel buf (at + size) (count + 1)))
          → Returns (IsScanned buf at count) (elim f [
            | no_record ↦ some (record { end = at; count = count })
            | found size ↦ scan_from crc fuel buf (at + size) (count + 1)
          ])
      step no_record is next = returns (record {
        entries = [];
        are = tt;
        bytes_are = refl;
        end_is = omega arith;
        count_is = omega arith;
        within = h;
      })
      step (found size) (e, is, here, size_is, inside) next =
          let long = align_up-le (header_size + length e.payload) in
          mono (next size inside (omega arith))
            λ scan rest. IsScanned-cons buf at count size scan (e, is, here, size_is, inside) rest

  -- The walk came to `ys` with some count, and went on from there.
  abbrev pub GoesOn : (buf ys : List ℕ) (at count : ℕ) → Scan → Type 0
  GoesOn buf ys at count scan =
      (more : List Entry) × AreEntries crc more
      × (ys ≡ log_bytes more ++ drop scan.end buf)
      × (scan.end ≡ at + length (log_bytes more))
      × (scan.count ≡ count + length more)

  -- The walk goes through all records that stand at the start, and on from there.
  pub scan_from-log :
      (es : List Entry) (fuel : ℕ) (buf xs ys : List ℕ) (count : ℕ)
      → buf ≡ xs ++ (log_bytes es ++ ys)
      → AreEntries crc es
      → length buf < length xs + fuel
      → Returns
          (GoesOn buf ys (length xs + length (log_bytes es)) (count + length es))
          (scan_from crc fuel buf (length xs) count)
  unfolding scan_from
  scan_from-log [] fuel buf xs ys count is are enough =
      let n = ap (λ zs. length zs) is in
      mono
        (scan_from-IsScanned fuel buf (length xs) count (omega (arith, length-append xs ys)) enough)
        λ scan s. (
          s.entries,
          s.are,
          sym (ap (λ zs. drop (length xs) zs) is ∙ drop-length xs ys) ∙ s.bytes_are,
          omega (arith, s.end_is),
          omega (arith, s.count_is),
        )
  scan_from-log (e ∷ es) zero buf xs ys count is are enough =
      let n = ap (λ zs. length zs) is in
      absurd (omega (arith, length-append xs (log_bytes (e ∷ es) ++ ys)))
  scan_from-log (e ∷ es) (suc fuel) buf xs ys count is are enough =
      let assoc : buf ≡ xs ++ (entry_bytes e ++ (log_bytes es ++ ys)) =
        is ∙ ap (λ zs. xs ++ zs) (append_assoc (entry_bytes e) (log_bytes es) ys) in
      let hit = scan_at-found crc xs e (log_bytes es ++ ys) buf assoc are.0 in
      let n = length-append xs (entry_bytes e) in
      let m = length-entry_bytes crc e are.0 in
      let k = length-append (entry_bytes e) (log_bytes es) in
      let long = align_up-le (header_size + length e.payload) in
      let at_is : length (xs ++ entry_bytes e) ≡ length xs + entry_size e = omega arith in
      let rest : Returns
          (GoesOn buf ys (length (xs ++ entry_bytes e) + length (log_bytes es))
            (count + 1 + length es))
          (scan_from crc fuel buf (length xs + entry_size e) (count + 1)) =
        subst
          (λ at.
            Returns
              (GoesOn buf ys (length (xs ++ entry_bytes e) + length (log_bytes es))
                (count + 1 + length es))
              (scan_from crc fuel buf at (count + 1)))
          at_is
          (scan_from-log es fuel buf (xs ++ entry_bytes e) ys (count + 1)
            (assoc ∙ sym (append_assoc xs (entry_bytes e) (log_bytes es ++ ys))) are.1
            (omega arith)) in
      rw hit (
        mono rest λ scan (more, ok_more, ys_are, end_is, count_is).
          (more, ok_more, ys_are, omega arith, omega arith))
