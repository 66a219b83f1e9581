-- ===== src/Ring/Access.antt =====
-- Where the two threads touch the slots, and when `push` and `pop` give up.
use mathlib.Core.Path.{subst}
use ferrox.Prelude.{ap, arith, length, some, sym, ◌+◌, ◌↔◌, ◌∙◌, ◌≡◌, ◌≢◌, ℕ, List}
use ferrox.Ring.{System, PushPc, PopPc, push_step, pop_step, slot_index, check_room, check_value}
use ferrox.Ring.Index.{index_injective}
use ferrox.Ring.Inv.{slot_index-count, wrapping_sub_counts, IsRing, counted}
use ferrox.Ring.Safety.{Reach, Reach-IsHolding}

module _ {A : Type 0} {s : System A} {push : PushPc A} {pop : PopPc A} {queue : List A}
    (is : IsRing s push pop queue) where
  IsRing-push : (push' : PushPc A) → s.push_pc ≡ push' → IsRing s push' pop queue
  IsRing-push push' e = subst (λ pc. IsRing s pc pop queue) (sym is.push_is ∙ e) is

  IsRing-pop : (pop' : PopPc A) → s.pop_pc ≡ pop' → IsRing s push pop' queue
  IsRing-pop pop' e = subst (λ pc. IsRing s push pc queue) (sym is.pop_is ∙ e) is

slots_apart :
    {A : Type 0} {s : System A} {v : A} {queue : List A}
    → IsRing s (PushPc.ready v) PopPc.ready queue
    → slot_index s.inner s.producer.cached_head ≢ slot_index s.inner s.consumer.cached_tail
slots_apart {s} {queue} is same =
    let n = counted is in
    let c = is.counts in
    let head =
      slot_index-count s.inner s.producer.cached_head (length s.pushed)
        (length s.popped + length queue) is.shape c.own_head n in
    let tail =
      slot_index-count s.inner s.consumer.cached_tail (length s.popped) (length s.popped + 0)
        is.shape c.own_tail (omega arith) in
    let d =
      index_injective (length s.popped) s.inner.capacity (length queue) 0 (omega arith)
        (omega (arith, is.shape.capacity.positive)) (sym head ∙ same ∙ tail) in
    omega arith

-- The two threads never touch one slot at a time: when the producer is about to write a slot and the
-- consumer is about to read one, these are different slots.
pub no_race :
    {A : Type 0} {capacity : ℕ} {s : System A} {v : A}
    → Reach capacity s
    → s.push_pc ≡ PushPc.ready v
    → s.pop_pc ≡ PopPc.ready
    → slot_index s.inner s.producer.cached_head ≢ slot_index s.inner s.consumer.cached_tail
no_race {v} r writes reads =
    let h = Reach-IsHolding r in
    slots_apart (IsRing-pop (IsRing-push h.ring (PushPc.ready v) writes) PopPc.ready reads)

full_iff :
    {A : Type 0} {s t : System A} {v : A} {pop : PopPc A} {queue : List A}
    → IsRing s (PushPc.entered v) pop queue
    → push_step s.inner.tail s (PushPc.entered v) ≡ some t
    → (t.push_pc ≡ PushPc.full v) ↔ (length s.pushed ≡ length s.popped + s.inner.capacity)
unfolding push_step check_room
full_iff {s} {t} is e =
    let n = counted is in
    let small = is.shape.capacity.small in
    let c = is.counts in
    let old =
      wrapping_sub_counts s.producer.cached_head s.producer.cached_tail (length s.pushed)
        is.seen_tail s.inner.capacity c.own_head c.copied_tail (omega arith) c.head_below small in
    let new =
      wrapping_sub_counts s.producer.cached_head s.inner.tail (length s.pushed) (length s.popped)
        s.inner.capacity c.own_head c.tail_is (omega arith) (omega arith) small in
    ground arith

-- A `push` that loads the newest `tail` gives its value back exactly if as many values as the
-- capacity are pushed and not yet popped.
pub push_step-full :
    {A : Type 0} {capacity : ℕ} {s t : System A} {v : A}
    → Reach capacity s
    → s.push_pc ≡ PushPc.entered v
    → push_step s.inner.tail s s.push_pc ≡ some t
    → (t.push_pc ≡ PushPc.full v) ↔ (length s.pushed ≡ length s.popped + capacity)
push_step-full {s} {t} {v} r here e =
    let h = Reach-IsHolding r in
    subst (λ c. (t.push_pc ≡ PushPc.full v) ↔ (length s.pushed ≡ length s.popped + c)) h.same
      (full_iff (IsRing-push h.ring (PushPc.entered v) here)
        (ap (push_step s.inner.tail s) (sym here) ∙ e))

empty_iff :
    {A : Type 0} {s t : System A} {push : PushPc A} {queue : List A}
    → IsRing s push PopPc.entered queue
    → pop_step s.inner.head s PopPc.entered ≡ some t
    → (t.pop_pc ≡ PopPc.empty) ↔ (length s.pushed ≡ length s.popped)
unfolding pop_step check_value
empty_iff {s} {t} is e =
    let n = counted is in let small = is.shape.capacity.small in let c = is.counts in ground arith

-- A `pop` that loads the newest `head` finds nothing exactly if every value pushed has been popped.
pub pop_step-empty :
    {A : Type 0} {capacity : ℕ} {s t : System A}
    → Reach capacity s
    → s.pop_pc ≡ PopPc.entered
    → pop_step s.inner.head s s.pop_pc ≡ some t
    → (t.pop_pc ≡ PopPc.empty) ↔ (length s.pushed ≡ length s.popped)
pop_step-empty {s} {t} r here e =
    let h = Reach-IsHolding r in
    empty_iff (IsRing-pop h.ring PopPc.entered here) (ap (pop_step s.inner.head s) (sym here) ∙ e)
