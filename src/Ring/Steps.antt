-- ===== src/Ring/Steps.antt =====
-- The ring and its two threads as a step relation, which refines a bounded queue.
use ferrox.Prelude.{arith, length, some, ◌++◌, ◌<◌, ◌∷◌, ◌≡◌, ℕ, List, []}
use ferrox.Ring.{System, PushPc, PopPc, push_step, pop_step, call_push, call_pop}
use ferrox.Ring.Inv.{IsRing, IsCoherent}

-- One thread moves: it calls its operation, or makes the next access of it. A load may see any value
-- that the cursor has had since the one seen before.
pub data Step {A : Type 0} (s : System A) : System A → Type 0 where
  push_called : (v : A) → Step s (call_push v s s.push_pc)
  push_moved :
      {t : System A} (seen : ℕ)
      → IsCoherent seen s.producer.cached_tail s.inner.tail
      → push_step seen s s.push_pc ≡ some t
      → Step s t
  pop_called : Step s (call_pop s s.pop_pc)
  pop_moved :
      {t : System A} (seen : ℕ)
      → IsCoherent seen s.consumer.cached_head s.inner.head
      → pop_step seen s s.pop_pc ≡ some t
      → Step s t

-- A bounded queue: the values that go in and come out.
pub data QueueStep {A : Type 0} (capacity : ℕ) : List A → List A → Type 0 where
  stay : {queue : List A} → QueueStep capacity queue queue
  enqueue :
      {queue : List A} (v : A)
      → length queue < capacity
      → QueueStep capacity queue (queue ++ v ∷ [])
  dequeue : {queue rest : List A} (v : A) → queue ≡ v ∷ rest → QueueStep capacity queue rest

-- The system `t` holds a queue that a step of the bounded queue makes of `queue`.
pub record IsNext {A : Type 0} (capacity : ℕ) (queue : List A) (t : System A) : Type 0 where
  pub push_at : PushPc A
  pub pop_at : PopPc A
  pub after : List A
  pub ring : IsRing t push_at pop_at after
  pub refines : QueueStep capacity queue after

pub push_step-capacity :
    {A : Type 0} (seen : ℕ) (s : System A) (push : PushPc A) {t : System A}
    → push_step seen s push ≡ some t
    → t.inner.capacity ≡ s.inner.capacity
unfolding push_step
push_step-capacity seen s PushPc.idle e = ground arith
push_step-capacity seen s (PushPc.full v) e = ground arith
push_step-capacity seen s (PushPc.entered v) e = ground arith
push_step-capacity seen s (PushPc.ready v) e = ground arith
push_step-capacity seen s (PushPc.written v) e = ground arith

pub pop_step-capacity :
    {A : Type 0} (seen : ℕ) (s : System A) (pop : PopPc A) {t : System A}
    → pop_step seen s pop ≡ some t
    → t.inner.capacity ≡ s.inner.capacity
unfolding pop_step
pop_step-capacity seen s PopPc.idle e = ground arith
pop_step-capacity seen s PopPc.empty e = ground arith
pop_step-capacity seen s PopPc.entered e = ground arith
pop_step-capacity seen s PopPc.ready e = ground arith
pop_step-capacity seen s (PopPc.taken v) e = ground arith
