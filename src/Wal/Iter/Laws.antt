-- ===== src/Wal/Iter/Laws.antt =====
-- What the iterator of a log yields.
use ferrox.Prelude.{
  sym, Returns, ap, append_assoc, arith, false, if◌then◌else◌, leb, length, length-append, ltb,
  refl, replicate, returns, some, true, ◌++◌, ◌+◌, ◌==◌, ◌∙◌, ◌∷◌, ◌≡◌, ℕ, List, [],
}
use ferrox.Protocol.{decode_message}
use ferrox.Wal.{Wal, align_up, header_size}
use ferrox.Wal.Records.{
  align_up-le, Entry, AreEntries, entry_bytes, log_bytes, length-entry_bytes, entry-IsRead,
}
use ferrox.Wal.Open.{IsWal}
use ferrox.Wal.Iter.{
  continues, finished, yields, WalIterator, NextTurn, next_turn, iter_from, item_of,
}

module _ (crc : List ℕ → ℕ) where
  -- The iterator stands behind `read` bytes, and `es` are left.
  pub record IsAt (it : WalIterator) (es : List Entry) : Type 0 where
    pub read : List ℕ
    pub behind : List ℕ
    pub are : AreEntries crc es
    pub mmap_is : it.mmap ≡ read ++ (log_bytes es ++ behind)
    pub read_is : it.read_pos ≡ length read
    pub end_is : it.end_pos ≡ length read + length (log_bytes es)

  pub iter_from-IsAt :
      (w : Wal) (es : List Entry) (start : ℕ) → IsWal crc w es → IsAt (iter_from w start) es
  iter_from-IsAt w es start is = record {
    read = [];
    behind = replicate is.room 0;
    are = is.are;
    mmap_is = is.mmap_is;
    read_is = refl;
    end_is = omega (arith, is.write_is);
  }

  -- What a turn comes to where a record is next.
  abbrev pub OneRead : WalIterator → Entry → List Entry → NextTurn → Type 0
  OneRead it e es t =
      (it' : WalIterator) × IsAt it' es
      × (it'.start_record ≡ it.start_record)
      × (it'.current_record ≡ it.current_record + 1)
      × (it'.mmap ≡ it.mmap)
      × (t ≡ (
          if leb (it.current_record + 1) it.start_record
          then continues it'
          else yields (item_of (it.current_record + 1) (decode_message e.payload)) it'))

  pub next_turn-OneRead :
      (it : WalIterator) (e : Entry) (es : List Entry)
      → IsAt it (e ∷ es)
      → Returns (OneRead it e es) (next_turn crc it)
  unfolding next_turn
  next_turn-OneRead it e es is =
      let entry = is.are.0 in
      let rest : List ℕ = log_bytes es ++ is.behind in
      let parts : it.mmap ≡ is.read ++ (entry_bytes e ++ rest) =
        is.mmap_is
        ∙ ap (λ zs. is.read ++ zs) (append_assoc (entry_bytes e) (log_bytes es) is.behind) in
      let r = entry-IsRead crc is.read e rest it.mmap it.read_pos parts is.read_is entry in
      let size = length-entry_bytes crc e entry in
      let n = length-append (entry_bytes e) (log_bytes es) in
      let m = length-append is.read (entry_bytes e) in
      let enough = align_up-le (header_size + length e.payload) in
      let room : ltb it.end_pos (it.read_pos + header_size) ≡ false =
        ground (arith, is.end_is, is.read_is) in
      let fits : ltb it.end_pos (it.read_pos + align_up (header_size + length e.payload)) ≡ false =
        ground (arith, is.end_is, is.read_is) in
      let some_bytes : (length e.payload == 0) ≡ false =
        let p = entry.some_payload in ground arith in
      let checks : (crc e.payload == crc e.payload) ≡ true = ground arith in
      let it' : WalIterator = record it {
        read_pos = it.read_pos + align_up (header_size + length e.payload);
        current_record = it.current_record + 1;
      } in
      let advanced : IsAt it' es = record {
        read = is.read ++ entry_bytes e;
        behind = is.behind;
        are = is.are.1;
        mmap_is = parts ∙ sym (append_assoc is.read (entry_bytes e) rest);
        read_is = omega (arith, is.read_is);
        end_is = omega (arith, is.end_is);
      } in
      rw
        (
          room, r.len_read, entry.len_is, some_bytes, fits, r.crc_read, r.payload_read,
          entry.crc_is, checks,
        )
        (returns (it', advanced, refl, refl, refl, refl))

  pub next_turn-finished : (it : WalIterator) → IsAt it [] → next_turn crc it ≡ some finished
  unfolding next_turn
  next_turn-finished it is =
      let past : ltb it.end_pos (it.read_pos + header_size) ≡ true =
        ground (arith, is.end_is, is.read_is) in
      rw past
