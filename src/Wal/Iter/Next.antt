-- ===== src/Wal/Iter/Next.antt =====
-- `WalIterator::next` on a log: the records behind the wanted number, one after the other.
use mathlib.Core.Path.{subst}
use ferrox.Prelude.{
  Bool-cases, Option, Returns, ap, arith, bind, drop, inl, inr, leb, length, max, mono, none, refl,
  returns, some, suc, sym, zero, ℕ, ◌+◌, ◌-◌, ◌<◌, ◌∙◌, ◌≡◌, List, [], ◌∷◌,
}
use ferrox.Wal.Iter.{WalIterator, Item, next, item_of}
use ferrox.Wal.Iter.Laws.{IsAt, next_turn-OneRead, next_turn-finished}
use ferrox.Wal.Records.{Entry}
use ferrox.Protocol.{decode_message}

drop_nil : {A : Type 0} (n : ℕ) → drop {A = A} n [] ≡ []
drop_nil zero = refl
drop_nil (suc n) = refl

drop_next : {A : Type 0} (k n : ℕ) (x : A) (xs : List A) → k ≡ suc n → drop k (x ∷ xs) ≡ drop n xs
drop_next zero n x xs e = absurd (omega arith)
drop_next (suc k) n x xs e = ap (λ (i : ℕ). drop i xs) (omega arith)

pub drop_none : {A : Type 0} (k : ℕ) (xs : List A) → k ≡ 0 → drop k xs ≡ xs
drop_none zero xs e = refl
drop_none (suc k) xs e = absurd (omega arith)

module _ (crc : List ℕ → ℕ) where
  -- The records that an iterator with `es` before it yields.
  abbrev pub wanted : WalIterator → List Entry → List Entry
  wanted it es = drop (it.start_record - it.current_record) es

  -- What `next` comes to where `es` are wanted.
  pub data IsNext (it : WalIterator) : List Entry → Option Item × WalIterator → Type 0 where
    ended : {it' : WalIterator} → IsNext it [] (none, it')
    another :
        {it' : WalIterator} {e : Entry} {es : List Entry}
        → it'.current_record ≡ max it.start_record it.current_record + 1
        → it'.start_record ≡ it.start_record
        → it'.mmap ≡ it.mmap
        → IsAt crc it' es
        → IsNext it (e ∷ es) (some (item_of it'.current_record (decode_message e.payload)), it')

  IsNext-later :
      (it it' : WalIterator) (es : List Entry) (r : Option Item × WalIterator)
      → it'.start_record ≡ it.start_record
      → max it'.start_record it'.current_record ≡ max it.start_record it.current_record
      → it'.mmap ≡ it.mmap
      → IsNext it' es r
      → IsNext it es r
  IsNext-later it it' es r start num same ended = ended
  IsNext-later it it' es r start num same (another n s m is) =
      another (n ∙ ap (λ (k : ℕ). k + 1) num) (s ∙ start) (m ∙ same) is

  -- On a log, a call of `next` skips the records up to the number `start_record`, which is the last one
  -- skipped, and yields the number and the decoded command, or the error of the decoder, of the first
  -- one behind, or nothing where no more are left. It never reports a torn or corrupt record, does not
  -- panic, and ends within one turn more than there are records ahead.
  pub next-IsNext :
      (es : List Entry) (fuel : ℕ) (it : WalIterator)
      → IsAt crc it es
      → length es < fuel
      → Returns (IsNext it (wanted it es)) (next crc fuel it)
  unfolding next
  next-IsNext es zero it is enough = absurd (omega arith)
  next-IsNext [] (suc fuel) it is enough = rw (next_turn-finished crc it is) (
      returns (
        subst (λ es. IsNext it es (none, it)) (sym (drop_nil (it.start_record - it.current_record)))
          ended))
  next-IsNext (e ∷ es) (suc fuel) it is enough =
      bind (next_turn-OneRead crc it e es is) λ t (it', is', start, current, mmap, t_is).
        elim (Bool-cases (leb (it.current_record + 1) it.start_record)) [
          | inl skipped ↦
              let same : wanted it (e ∷ es) ≡ wanted it' es =
                drop_next (it.start_record - it.current_record)
                  (it'.start_record - it'.current_record) e es (ground arith) in
              rw (t_is, skipped)
                (mono (next-IsNext es fuel it' is' (omega arith)) λ r n.
                  subst (λ zs. IsNext it zs r) (sym same)
                    (IsNext-later it it' (wanted it' es) r start (ground arith) mmap n))
          | inr reached ↦
              let same : wanted it (e ∷ es) ≡ e ∷ es =
                drop_none (it.start_record - it.current_record) (e ∷ es) (ground arith) in
              rw (t_is, reached)
                (returns (
                  subst
                    (λ zs.
                      IsNext it zs
                        (some (item_of (it.current_record + 1) (decode_message e.payload)), it'))
                    (sym same)
                    (subst
                      (λ (k : ℕ).
                        IsNext it (e ∷ es) (some (item_of k (decode_message e.payload)), it'))
                      current (another (ground arith) start mmap is'))))
        ]
