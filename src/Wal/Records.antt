-- ===== src/Wal/Records.antt =====
-- What the bytes of a log stand for: records, one behind the other.
use ferrox.Prelude.{
  ap, append_assoc, arith, false, length, length-append, ltb, refl, some, sym, true, ◌++◌, ◌+◌, ◌<◌,
  ◌==◌, ◌∙◌, ◌∷◌, ◌≡◌, ◌≤◌, ℕ, List, [],
}
use ferrox.Protocol.Bytes.{from_le}
use ferrox.Wal.{align_up, header_size, scan_at, found, get_slice}
use ferrox.Wal.Slices.{get_slice-part}

-- The parts of a record in the file.
pub record Entry : Type 0 where
  pub len_bytes : List ℕ
  pub crc_bytes : List ℕ
  pub payload : List ℕ
  pub padding : List ℕ

abbrev pub entry_bytes : Entry → List ℕ
entry_bytes e = e.len_bytes ++ (e.crc_bytes ++ (e.payload ++ e.padding))

abbrev pub entry_size : Entry → ℕ
entry_size e = align_up (header_size + length e.payload)

abbrev pub log_bytes : List Entry → List ℕ
log_bytes [] = []
log_bytes (e ∷ es) = entry_bytes e ++ log_bytes es

pub align_up-le : (n : ℕ) → n ≤ align_up n
unfolding align_up
align_up-le n = omega arith

pub log_bytes-append : (es fs : List Entry) → log_bytes (es ++ fs) ≡ log_bytes es ++ log_bytes fs
log_bytes-append [] fs = refl
log_bytes-append (e ∷ es) fs =
    ap (λ ys. entry_bytes e ++ ys) (log_bytes-append es fs)
    ∙ sym (append_assoc (entry_bytes e) (log_bytes es) (log_bytes fs))

module _ (crc : List ℕ → ℕ) where
  -- The header tells the length and the checksum of the payload, which is not empty.
  pub record IsEntry (e : Entry) : Type 0 where
    pub len_size : length e.len_bytes ≡ 4
    pub len_is : from_le e.len_bytes ≡ length e.payload
    pub crc_size : length e.crc_bytes ≡ 4
    pub crc_is : from_le e.crc_bytes ≡ crc e.payload
    pub some_payload : 0 < length e.payload
    pub padded : header_size + length e.payload + length e.padding ≡ entry_size e

  abbrev pub AreEntries : List Entry → Type 0
  AreEntries [] = Unit
  AreEntries (e ∷ es) = IsEntry e × AreEntries es

  pub AreEntries-append :
      (es fs : List Entry) → AreEntries es → AreEntries fs → AreEntries (es ++ fs)
  AreEntries-append [] fs h k = k
  AreEntries-append (e ∷ es) fs h k = (h.0, AreEntries-append es fs h.1 k)

  pub length-entry_bytes : (e : Entry) → IsEntry e → length (entry_bytes e) ≡ entry_size e
  length-entry_bytes e is = omega (
    arith,
    length-append e.len_bytes (e.crc_bytes ++ (e.payload ++ e.padding)),
    length-append e.crc_bytes (e.payload ++ e.padding),
    length-append e.payload e.padding,
  )

  -- The reads of a record that stands at a position.
  pub record IsRead (buf : List ℕ) (at : ℕ) (e : Entry) : Type 0 where
    pub len_read : get_slice buf at 4 ≡ some e.len_bytes
    pub crc_read : get_slice buf (at + 4) 4 ≡ some e.crc_bytes
    pub payload_read : get_slice buf (at + header_size) (length e.payload) ≡ some e.payload

  pub entry-IsRead :
      (xs : List ℕ) (e : Entry) (ys : List ℕ) (buf : List ℕ) (at : ℕ)
      → buf ≡ xs ++ (entry_bytes e ++ ys)
      → at ≡ length xs
      → IsEntry e
      → IsRead buf at e
  entry-IsRead xs e ys buf at buf_is at_is is =
      let tail : List ℕ = e.payload ++ (e.padding ++ ys) in
      let bytes_are : entry_bytes e ++ ys ≡ e.len_bytes ++ (e.crc_bytes ++ tail) =
        simp append_assoc in
      let parts : buf ≡ xs ++ (e.len_bytes ++ (e.crc_bytes ++ tail)) =
        buf_is ∙ ap (λ zs. xs ++ zs) bytes_are in
      let parts_2 : buf ≡ (xs ++ e.len_bytes) ++ (e.crc_bytes ++ tail) =
        parts ∙ sym (append_assoc xs e.len_bytes (e.crc_bytes ++ tail)) in
      let n = length-append xs e.len_bytes in
      record {
        len_read =
            get_slice-part buf xs e.len_bytes (e.crc_bytes ++ tail) at 4 parts at_is
              (sym is.len_size);
        crc_read =
            get_slice-part buf (xs ++ e.len_bytes) e.crc_bytes tail (at + 4) 4 parts_2
              (omega (arith, is.len_size)) (sym is.crc_size);
        payload_read =
            get_slice-part buf ((xs ++ e.len_bytes) ++ e.crc_bytes) e.payload (e.padding ++ ys)
              (at + header_size) (length e.payload)
              (parts_2 ∙ sym (append_assoc (xs ++ e.len_bytes) e.crc_bytes tail))
              (omega
                (arith, length-append (xs ++ e.len_bytes) e.crc_bytes, is.len_size, is.crc_size))
              refl;
      }

  -- A record is found where it stands.
  pub scan_at-found :
      (xs : List ℕ) (e : Entry) (ys : List ℕ) (buf : List ℕ)
      → buf ≡ xs ++ (entry_bytes e ++ ys)
      → IsEntry e
      → scan_at crc buf (length xs) ≡ some (found (entry_size e))
  unfolding scan_at
  scan_at-found xs e ys buf buf_is is =
      let r = entry-IsRead xs e ys buf (length xs) buf_is refl is in
      let size = length-entry_bytes e is in
      let all = ap (λ zs. length zs) buf_is in
      let n = length-append xs (entry_bytes e ++ ys) in
      let m = length-append (entry_bytes e) ys in
      let enough = align_up-le (header_size + length e.payload) in
      let room : ltb (length buf) (length xs + header_size) ≡ false = ground arith in
      let fits : ltb (length buf) (length xs + align_up (header_size + length e.payload)) ≡ false =
        ground arith in
      let some_bytes : (length e.payload == 0) ≡ false = let p = is.some_payload in ground arith in
      let checks : (crc e.payload == crc e.payload) ≡ true = ground arith in
      rw (
        room, r.len_read, is.len_is, some_bytes, fits, r.crc_read, r.payload_read, is.crc_is,
        checks,
      )
