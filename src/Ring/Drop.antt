-- ===== src/Ring/Drop.antt =====
-- `RingBufferInner::drop`: the values that were pushed and never popped are dropped, each once.
use mathlib.Core.Path.{subst}
use ferrox.Prelude.{
  Bool, ap, append-nil, refl, sym, ◌++◌, ◌∙◌, arith, false, get_elem?, length, none, some, suc,
  true, zero, ◌%◌, ◌+◌, ◌<◌, ◌==◌, ◌∷◌, ◌≡◌, ◌≤◌, ℕ, List, [],
}
use ferrox.Ring.{
  set_slot, slot_index, words, wrapping_add, System, PushPc, PopPc, RingBufferInner, drop_from,
  drop_all,
}
use ferrox.Ring.Inv.{back, counted, is_taken, slot_index-count, IsShape, AreSlots}
use ferrox.Ring.Safety.{Reach, Reach-IsHolding}
use ferrox.Ring.Slots.{AreSlots-read, AreSlots-release, IsShape-set}

drop_from-cells :
    {A : Type 0} (fuel : ℕ) (r : RingBufferInner A) (i n : ℕ) (cells : List A)
    → IsShape r
    → i ≡ n % words
    → r.head ≡ (n + length cells) % words
    → length cells ≤ r.capacity
    → AreSlots r n false cells
    → length cells < fuel
    → drop_from fuel r i ≡ some cells
unfolding drop_from
drop_from-cells zero r i n cells is at end fits slots enough = absurd (omega arith)
drop_from-cells (suc fuel) r i n [] is at end fits slots enough =
    let over : (i == r.head) ≡ true = ground arith in rw over
drop_from-cells {A} (suc fuel) r i n (x ∷ cells) is at end fits slots enough =
    let small = is.capacity.small in
    let more : (i == r.head) ≡ false = ground arith in
    let here : slot_index r i ≡ (n + 0) % r.capacity =
      slot_index-count r i n (n + 0) is at (omega arith) in
    let held : get_elem? r.buffer ((n + 0) % r.capacity) ≡ some (some x) =
      slots 0 is.capacity.positive in
    let r' : RingBufferInner A = set_slot r ((n + 0) % r.capacity) none in
    let shape = IsShape-set r ((n + 0) % r.capacity) none is in
    let rest =
      drop_from-cells fuel r' (wrapping_add i 1) (n + 1) cells shape (omega arith) (omega arith)
        (omega arith)
        (AreSlots-release r' n shape x cells (omega arith) (AreSlots-read r n is (x ∷ cells) slots))
        (omega arith) in
    rw (more, here, held, rest)

-- Whether a thread is outside of its operation.
abbrev pub push_outside : {A : Type 0} → PushPc A → Bool
push_outside PushPc.idle = true
push_outside (PushPc.full v) = true
push_outside (PushPc.entered v) = false
push_outside (PushPc.ready v) = false
push_outside (PushPc.written v) = false

abbrev pub pop_outside : {A : Type 0} → PopPc A → Bool
pop_outside PopPc.idle = true
pop_outside PopPc.empty = true
pop_outside PopPc.entered = false
pop_outside PopPc.ready = false
pop_outside (PopPc.taken v) = false

push_outside-back : {A : Type 0} (push : PushPc A) → push_outside push ≡ true → back push ≡ []
push_outside-back PushPc.idle e = refl
push_outside-back (PushPc.full v) e = refl
push_outside-back (PushPc.entered v) e = cc
push_outside-back (PushPc.ready v) e = cc
push_outside-back (PushPc.written v) e = cc

pop_outside-is_taken : {A : Type 0} (pop : PopPc A) → pop_outside pop ≡ true → is_taken pop ≡ false
pop_outside-is_taken PopPc.idle e = refl
pop_outside-is_taken PopPc.empty e = refl
pop_outside-is_taken PopPc.entered e = refl
pop_outside-is_taken PopPc.ready e = refl
pop_outside-is_taken (PopPc.taken v) e = cc

-- When both threads are outside of their operations, dropping the ring ends and drops exactly the
-- values that were pushed and not popped, in their order, and touches no slot that holds none.
pub drop_all-rest :
    {A : Type 0} {capacity : ℕ} {s : System A}
    → Reach capacity s
    → push_outside s.push_pc ≡ true
    → pop_outside s.pop_pc ≡ true
    → (rest : List A) × (s.pushed ≡ s.popped ++ rest) × (drop_all s.inner ≡ some rest)
unfolding drop_all
drop_all-rest {A} {s} r push_out pop_out =
    let h = Reach-IsHolding r in
    let ring = h.ring in
    let n = counted ring in
    let c = ring.counts in
    let none_behind : back h.push_at ≡ [] =
      push_outside-back h.push_at (ap push_outside (sym ring.push_is) ∙ push_out) in
    let none_taken : is_taken h.pop_at ≡ false =
      pop_outside-is_taken h.pop_at (ap pop_outside (sym ring.pop_is) ∙ pop_out) in
    let cells_are : h.queue ++ back h.push_at ≡ h.queue =
      ap (λ xs. h.queue ++ xs) none_behind ∙ append-nil h.queue in
    let slots : AreSlots s.inner (length s.popped) false h.queue =
      subst (λ cells. AreSlots s.inner (length s.popped) false cells) cells_are
        (subst (λ front. AreSlots s.inner (length s.popped) front (h.queue ++ back h.push_at))
          none_taken ring.slots) in
    (
      h.queue,
      ring.history,
      drop_from-cells (suc s.inner.capacity) s.inner s.inner.tail (length s.popped) h.queue
          ring.shape c.tail_is (c.head_is ∙ ap (λ (k : ℕ). k % words) n) (omega arith) slots
          (omega arith),
    )
