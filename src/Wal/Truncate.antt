-- ===== src/Wal/Truncate.antt =====
-- `Wal::truncate_to` at the end of a record.
use ferrox.Prelude.{
  Bool-cases, Returns, ap, append_assoc, arith, inl, inr, leb, length, length-append,
  length-replicate, ltb, refl, replicate, returns, some, sym, true, ℕ, ◌++◌, ◌+◌, ◌-◌, ◌∙◌, ◌≡◌,
  List, [], ◌∷◌,
}
use ferrox.Wal.{Wal, truncate_to, set_slice}
use ferrox.Wal.Slices.{put-cons, put-past, replicate-add}
use ferrox.Wal.Records.{log_bytes-append, Entry, AreEntries, log_bytes}
use ferrox.Wal.Open.{IsWal}
use ferrox.Protocol.Bytes.{put}

put-over : (bs cs ys : List ℕ) → length bs ≡ length cs → put 0 bs (cs ++ ys) ≡ bs ++ ys
unfolding put
put-over [] [] ys e = refl
put-over [] (c ∷ cs) ys e = absurd (omega arith)
put-over (b ∷ bs) [] ys e = absurd (omega arith)
put-over (b ∷ bs) (c ∷ cs) ys e =
    put-cons 0 bs b (cs ++ ys) ∙ ap (λ zs. b ∷ zs) (put-over bs cs ys (omega arith))

none_left : (xs : List ℕ) → length xs ≡ 0 → xs ≡ []
none_left [] e = refl
none_left (x ∷ xs) e = absurd (omega arith)

-- A write over as many bytes.
set_slice-over :
    (xs bs cs ys : List ℕ) (offset : ℕ)
    → offset ≡ length xs
    → length bs ≡ length cs
    → set_slice (xs ++ (cs ++ ys)) offset bs ≡ some (xs ++ (bs ++ ys))
unfolding set_slice
set_slice-over xs bs cs ys offset at size =
    let room : leb (length xs + length bs) (length (xs ++ (cs ++ ys))) ≡ true =
      ground (arith, length-append xs (cs ++ ys), length-append cs ys) in
    rw (at, room)
      (ap some (put-past bs xs (cs ++ ys) ∙ ap (λ zs. xs ++ zs) (put-over bs cs ys size)))

module _ (crc : List ℕ → ℕ) where
  AreEntries-front : (es fs : List Entry) → AreEntries crc (es ++ fs) → AreEntries crc es
  AreEntries-front [] fs are = tt
  AreEntries-front (e ∷ es) fs are = (are.0, AreEntries-front es fs are.1)

  module _ (w : Wal) (es fs : List Entry) (is : IsWal crc w (es ++ fs)) where
    kept :
        (mmap : List ℕ) (room : ℕ)
        → mmap ≡ log_bytes es ++ replicate room 0
        → length mmap ≡ length w.mmap
        → IsWal crc
            (record w { mmap = mmap; write_pos = length (log_bytes es); record_count = length es })
            es
    kept mmap room made same = record {
      are = AreEntries-front es fs is.are;
      room = room;
      mmap_is = made;
      write_is = refl;
      mapped_is = is.mapped_is ∙ sym same;
      count_is = refl;
      buf_is = is.buf_is;
    }

    parts : w.mmap ≡ log_bytes es ++ (log_bytes fs ++ replicate is.room 0)
    parts =
        is.mmap_is
        ∙ ap (λ zs. zs ++ replicate is.room 0) (log_bytes-append es fs)
        ∙ append_assoc (log_bytes es) (log_bytes fs) (replicate is.room 0)

    -- Truncating a log behind some of its records does not panic, and leaves a log of just these.
    pub truncate_to-IsWal :
        Returns (λ w'. IsWal crc w' es) (truncate_to w (length (log_bytes es)) (length es))
    unfolding truncate_to
    truncate_to-IsWal =
        let log : List ℕ = log_bytes es in
        let cut : List ℕ = log_bytes fs in
        let n = ap (λ zs. length zs) (log_bytes-append es fs) in
        let m = length-append log cut in
        let k = length-replicate {A = ℕ} (length cut) 0 in
        let size : w.write_pos - length log ≡ length cut = omega (arith, is.write_is) in
        elim (Bool-cases (ltb (length log) w.write_pos)) [
          | inl some_cut ↦
              let made : set_slice w.mmap (length log) (replicate (length cut) 0)
                  ≡ some (log ++ (replicate (length cut) 0 ++ replicate is.room 0)) =
                ap (λ mm. set_slice mm (length log) (replicate (length cut) 0)) parts
                ∙ set_slice-over log (replicate (length cut) 0) cut (replicate is.room 0)
                    (length log) refl k in
              let zeros : log ++ (replicate (length cut) 0 ++ replicate is.room 0)
                  ≡ log ++ replicate (length cut + is.room) 0 =
                ap (λ zs. log ++ zs)
                  (sym (replicate-add (length cut) is.room (length cut + is.room) 0 refl)) in
              rw (some_cut, size, made)
                (returns (
                  kept _ (length cut + is.room) zeros (
                    omega (
                      arith,
                      ap (λ zs. length zs) parts,
                      length-append log (cut ++ replicate is.room 0),
                      length-append cut (replicate is.room 0),
                      length-append log (replicate (length cut) 0 ++ replicate is.room 0),
                      length-append (replicate {A = ℕ} (length cut) 0) (replicate is.room 0),
                    ))))
          | inr no_cut ↦ rw no_cut (
              returns (
                kept w.mmap is.room
                  (parts
                    ∙ ap (λ zs. log ++ (zs ++ replicate is.room 0))
                        (none_left cut (ground (arith, is.write_is))))
                  refl))
        ]
