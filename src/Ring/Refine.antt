-- ===== src/Ring/Refine.antt =====
-- Every reachable state of the ring stands for a queue, and every step is one of a bounded queue.
use mathlib.Core.Path.{subst}
use ferrox.Prelude.{
  ap, false, from_some, refl, some, sym, ◌∙◌, Returns, arith, inl, inr, length, mono, returns, ◌++◌,
  ◌∷◌, ◌≡◌, ℕ, List, [],
}
use ferrox.Ring.{read, System, PushPc, PopPc, push_step, pop_step, call_push, call_pop}
use ferrox.Ring.Inv.{AreSlots, is_taken, back, IsRing, IsCoherent, counted}
use ferrox.Ring.Push.{push_step-entered, push_step-ready, push_step-written}
use ferrox.Ring.Pop.{pop_step-entered, pop_step-ready, pop_step-taken}
use ferrox.Ring.Steps.{
  pop_called, pop_moved, push_called, push_moved, dequeue, enqueue, stay, Step, IsNext,
  push_step-capacity, pop_step-capacity,
}

-- A state that stands for the same queue.
stays :
    {A : Type 0} {t : System A} {push : PushPc A} {pop : PopPc A} {queue : List A} (capacity : ℕ)
    → IsRing t push pop queue
    → IsNext capacity queue t
stays {push} {pop} {queue} capacity ring = record {
  push_at = push;
  pop_at = pop;
  after = queue;
  ring = ring;
  refines = stay;
}

-- A thread at the start of its operation.
entered_push :
    {A : Type 0} {s : System A} {push : PushPc A} {pop : PopPc A} {queue : List A} (v : A)
    → IsRing s push pop queue
    → back push ≡ []
    → IsRing (record s { push_pc = PushPc.entered v }) (PushPc.entered v) pop queue
entered_push {s} {pop} {queue} v is e = record {
  push_is = refl;
  pop_is = is.pop_is;
  shape = is.shape;
  history = is.history;
  seen_tail = is.seen_tail;
  seen_head = is.seen_head;
  counts = omega arith;
  has_room = tt;
  has_value = is.has_value;
  slots =
      subst (λ cells. AreSlots s.inner (length s.popped) (is_taken pop) (queue ++ cells)) e
        is.slots;
}

entered_pop :
    {A : Type 0} {s : System A} {push : PushPc A} {pop : PopPc A} {queue : List A}
    → IsRing s push pop queue
    → is_taken pop ≡ false
    → IsRing (record s { pop_pc = PopPc.entered }) push PopPc.entered queue
entered_pop {s} {push} {queue} is e = record {
  push_is = is.push_is;
  pop_is = refl;
  shape = is.shape;
  history = is.history;
  seen_tail = is.seen_tail;
  seen_head = is.seen_head;
  counts = omega arith;
  has_room = is.has_room;
  has_value = tt;
  slots = subst (λ front. AreSlots s.inner (length s.popped) front (queue ++ back push)) e is.slots;
}

module _ {A : Type 0} (s : System A) (queue : List A) where
  call_push-IsNext :
      (v : A) (push : PushPc A) (pop : PopPc A)
      → IsRing s push pop queue
      → IsNext s.inner.capacity queue (call_push v s push)
  call_push-IsNext v PushPc.idle pop is = stays _ (entered_push v is refl)
  call_push-IsNext v (PushPc.full w) pop is = stays _ (entered_push v is refl)
  call_push-IsNext v (PushPc.entered w) pop is = stays _ is
  call_push-IsNext v (PushPc.ready w) pop is = stays _ is
  call_push-IsNext v (PushPc.written w) pop is = stays _ is

  call_pop-IsNext :
      (push : PushPc A) (pop : PopPc A)
      → IsRing s push pop queue
      → IsNext s.inner.capacity queue (call_pop s pop)
  call_pop-IsNext push PopPc.idle is = stays _ (entered_pop is refl)
  call_pop-IsNext push PopPc.empty is = stays _ (entered_pop is refl)
  call_pop-IsNext push PopPc.entered is = stays _ is
  call_pop-IsNext push PopPc.ready is = stays _ is
  call_pop-IsNext push (PopPc.taken w) is = stays _ is

module _ {A : Type 0} (s : System A) (queue : List A) (seen : ℕ) where
  -- `push` never panics and never overwrites a value.
  pub push_step-IsNext :
      (push : PushPc A) (pop : PopPc A)
      → IsRing s push pop queue
      → IsCoherent seen s.producer.cached_tail s.inner.tail
      → Returns (IsNext s.inner.capacity queue) (push_step seen s push)
  push_step-IsNext PushPc.idle pop is load = unfold push_step in returns (stays _ is)
  push_step-IsNext (PushPc.full v) pop is load = unfold push_step in returns (stays _ is)
  push_step-IsNext (PushPc.entered v) pop is load =
      mono (push_step-entered s pop queue v seen is load)
        λ t e. elim e [ inl refused ↦ stays _ refused | inr go ↦ stays _ go ]
  push_step-IsNext (PushPc.ready v) pop is load =
      mono (push_step-ready s pop queue v seen is) λ t done. stays _ done
  push_step-IsNext (PushPc.written v) pop is load =
      let n = counted is in
      mono (push_step-written s pop queue v seen is) λ t (done, _). record {
        push_at = PushPc.idle;
        pop_at = pop;
        after = queue ++ v ∷ [];
        ring = done;
        refines = enqueue v (omega arith);
      }

  -- `pop` never panics and never reads a slot that holds no value.
  pub pop_step-IsNext :
      (push : PushPc A) (pop : PopPc A)
      → IsRing s push pop queue
      → IsCoherent seen s.consumer.cached_head s.inner.head
      → Returns (IsNext s.inner.capacity queue) (pop_step seen s pop)
  pop_step-IsNext push PopPc.idle is load = unfold pop_step in returns (stays _ is)
  pop_step-IsNext push PopPc.empty is load = unfold pop_step in returns (stays _ is)
  pop_step-IsNext push PopPc.entered is load =
      mono (pop_step-entered s push queue seen is load)
        λ t e. elim e [ inl nothing ↦ stays _ nothing | inr go ↦ stays _ go ]
  pop_step-IsNext push PopPc.ready is load =
      mono (pop_step-ready s push queue seen is) λ t (v, rest, front, read). stays _ read
  pop_step-IsNext push (PopPc.taken v) is load =
      mono (pop_step-taken s push queue v seen is) λ t (rest, front, done). record {
        push_at = push;
        pop_at = PopPc.idle;
        after = rest;
        ring = done;
        refines = dequeue v front;
      }

module _ {A : Type 0} (s : System A) where
  call_push-capacity :
      (v : A) (push : PushPc A) → (call_push v s push).inner.capacity ≡ s.inner.capacity
  call_push-capacity v PushPc.idle = refl
  call_push-capacity v (PushPc.full w) = refl
  call_push-capacity v (PushPc.entered w) = refl
  call_push-capacity v (PushPc.ready w) = refl
  call_push-capacity v (PushPc.written w) = refl

  call_pop-capacity : (pop : PopPc A) → (call_pop s pop).inner.capacity ≡ s.inner.capacity
  call_pop-capacity PopPc.idle = refl
  call_pop-capacity PopPc.empty = refl
  call_pop-capacity PopPc.entered = refl
  call_pop-capacity PopPc.ready = refl
  call_pop-capacity (PopPc.taken w) = refl

-- Every step of the two threads is a step of the bounded queue, or leaves the queue alone.
pub Step-IsNext :
    {A : Type 0} {s t : System A} {push : PushPc A} {pop : PopPc A} {queue : List A}
    → IsRing s push pop queue
    → Step s t
    → IsNext s.inner.capacity queue t × (t.inner.capacity ≡ s.inner.capacity)
Step-IsNext {s} {push} {pop} {queue} is (push_called v) = (
  subst (λ pc. IsNext s.inner.capacity queue (call_push v s pc)) (sym is.push_is)
      (call_push-IsNext s queue v push pop is),
  call_push-capacity s v s.push_pc,
)
Step-IsNext {s} {push} {pop} {queue} is (push_moved seen load e) =
    let done = push_step-IsNext s queue seen push pop is load in
    let run : push_step seen s push ≡ some _ = ap (push_step seen s) (sym is.push_is) ∙ e in
    (
      from_some (subst (λ m. Returns (IsNext s.inner.capacity queue) m) run done),
      push_step-capacity seen s s.push_pc e,
    )
Step-IsNext {s} {push} {pop} {queue} is pop_called = (
  subst (λ pc. IsNext s.inner.capacity queue (call_pop s pc)) (sym is.pop_is)
      (call_pop-IsNext s queue push pop is),
  call_pop-capacity s s.pop_pc,
)
Step-IsNext {s} {push} {pop} {queue} is (pop_moved seen load e) =
    let done = pop_step-IsNext s queue seen push pop is load in
    let run : pop_step seen s pop ≡ some _ = ap (pop_step seen s) (sym is.pop_is) ∙ e in
    (
      from_some (subst (λ m. Returns (IsNext s.inner.capacity queue) m) run done),
      pop_step-capacity seen s s.pop_pc e,
    )
