-- ===== src/Wal/Append.antt =====
-- `Wal::append`: one record more, behind the others.
use ferrox.Prelude.{
  refl, append-nil, append_assoc, sym, ◌∙◌, Returns, ap, arith, length, length-append,
  length-replicate, replicate, returns, ◌++◌, ◌+◌, ◌-◌, ◌<◌, ◌∷◌, ◌≡◌, ◌≤◌, ℕ, List, [],
}
use ferrox.Protocol.Bytes.{to_le, from_le-to_le, length-to_le}
use ferrox.Wal.{Wal, write_record, align_up, header_size}
use ferrox.Wal.Slices.{set_slice-zeros}
use ferrox.Wal.Records.{
  log_bytes-append, AreEntries-append, align_up-le, Entry, IsEntry, entry_bytes, log_bytes,
}
use ferrox.Wal.Open.{IsWal}

-- The record that a payload is written to.
abbrev pub entry_of : (List ℕ → ℕ) → List ℕ → Entry
entry_of crc payload = record {
  len_bytes = to_le 4 (length payload);
  crc_bytes = to_le 4 (crc payload);
  payload = payload;
  padding = replicate (align_up (header_size + length payload) - (header_size + length payload)) 0;
}

module _ (crc : List ℕ → ℕ) (u32 : (bytes : List ℕ) → crc bytes < 4_294_967_296) where
  pub entry_of-IsEntry :
      (payload : List ℕ)
      → 0 < length payload
      → length payload < 4_294_967_296
      → IsEntry crc (entry_of crc payload)
  entry_of-IsEntry payload long small =
      let pad : ℕ = align_up (header_size + length payload) - (header_size + length payload) in
      record {
        len_size = length-to_le 4 (length payload);
        len_is = from_le-to_le 4 (length payload) small;
        crc_size = length-to_le 4 (crc payload);
        crc_is = from_le-to_le 4 (crc payload) (u32 payload);
        some_payload = long;
        padded =
            omega
              (arith, align_up-le (header_size + length payload), length-replicate {A = ℕ} pad 0);
      }

  -- With room behind the records, the record is written there, and the file keeps its size.
  pub write_record-IsWal :
      (w : Wal) (es : List Entry) (payload : List ℕ)
      → IsWal crc w es
      → 0 < length payload
      → length payload < 4_294_967_296
      → w.write_pos + align_up (header_size + length payload) ≤ w.mapped_size
      → Returns
          (λ w'. IsWal crc w' (es ++ entry_of crc payload ∷ []) × (w'.mapped_size ≡ w.mapped_size))
          (write_record w payload (crc payload))
  unfolding write_record
  write_record-IsWal w es payload is long small fits =
      let e : Entry = entry_of crc payload in
      let entry = entry_of-IsEntry payload long small in
      let log : List ℕ = log_bytes es in
      let pad : ℕ = align_up (header_size + length payload) - (header_size + length payload) in
      let enough = align_up-le (header_size + length payload) in
      let n = ap (λ zs. length zs) is.mmap_is in
      let m = length-append log (replicate is.room 0) in
      let r = length-replicate {A = ℕ} is.room 0 in
      let room : align_up (header_size + length payload) ≤ is.room =
        omega (arith, is.mapped_is, is.write_is) in
      let l1 : List ℕ = log ++ e.len_bytes in
      let l2 : List ℕ = l1 ++ e.crc_bytes in
      let l3 : List ℕ = l2 ++ payload in
      let n1 = length-append log e.len_bytes in
      let n2 = length-append l1 e.crc_bytes in
      let n3 = length-append l2 payload in
      let ls = entry.len_size in
      let cs = entry.crc_size in
      let ps = length-replicate {A = ℕ} pad 0 in
      let w1 =
        set_slice-zeros log e.len_bytes is.room (is.room - 4) w.write_pos is.write_is
          (omega arith) in
      let w2 =
        set_slice-zeros l1 e.crc_bytes (is.room - 4) (is.room - 8) (w.write_pos + 4)
          (omega (arith, is.write_is)) (omega arith) in
      let w3 =
        set_slice-zeros l2 payload (is.room - 8) (is.room - 8 - length payload)
          (w.write_pos + header_size) (omega (arith, is.write_is)) (omega arith) in
      let left : ℕ = is.room - align_up (header_size + length payload) in
      let w4 =
        set_slice-zeros l3 e.padding (is.room - 8 - length payload) left
          (w.write_pos + header_size + length payload) (omega (arith, is.write_is)) (omega arith) in
      let flat : l3 ++ e.padding ≡ log_bytes (es ++ e ∷ []) =
        (simp append_assoc)
        ∙ ap (λ zs. log ++ zs) (sym (append-nil (entry_bytes e)))
        ∙ sym (log_bytes-append es (e ∷ [])) in
      let size = length-append l3 e.padding in
      let grown = ap (λ zs. length zs) flat in
      let w' : Wal = record w {
        mmap = (l3 ++ e.padding) ++ replicate left 0;
        write_pos = w.write_pos + align_up (header_size + length payload);
        record_count = w.record_count + 1;
      } in
      rw (is.mmap_is, w1, w2, w3, w4)
        (returns {a = w'} (
          (record {
            are = AreEntries-append crc es (e ∷ []) is.are (entry, tt);
            room = left;
            mmap_is = ap (λ zs. zs ++ replicate left 0) flat;
            write_is = omega (arith, is.write_is);
            mapped_is = omega (
              arith,
              is.mapped_is,
              is.write_is,
              length-append (l3 ++ e.padding) (replicate left 0),
              length-replicate {A = ℕ} left 0,
            );
            count_is = omega (arith, is.count_is, length-append es (e ∷ []));
            buf_is = is.buf_is;
          }),
          refl,
        ))
