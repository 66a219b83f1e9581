-- ===== src/Ring/Safety.antt =====
-- What holds in every state of the ring that the two threads can reach.
use native.Mathlib.Nat.{mod-lt}
use mathlib.Core.Path.{subst}
use ferrox.Prelude.{
  ap, length, value, ◌++◌, ◌∙◌, ◌≤◌, Bool-cases, arith, get_elem?, inl, inr, length-replicate, none,
  refl, replicate, some, suc, zero, ◌%◌, ◌+◌, ◌-◌, ◌<◌, ◌==◌, ◌≡◌, ℕ, List, [],
}
use ferrox.Ring.{is_power_below, power, System, PushPc, PopPc, push_step, pop_step, ring_buffer}
use ferrox.Ring.Index.{is_power_below-IsCapacity}
use ferrox.Ring.Inv.{IsRing, IsCoherent, counted}
use ferrox.Ring.Steps.{Step, QueueStep}
use ferrox.Ring.Refine.{Step-IsNext, push_step-IsNext, pop_step-IsNext}

pub data Reach {A : Type 0} (capacity : ℕ) : System A → Type 0 where
  start : {s : System A} → ring_buffer capacity ≡ some s → Reach capacity s
  later : {s t : System A} → Reach capacity s → Step s t → Reach capacity t

get_elem?-replicate : {A : Type 0} (n i : ℕ) (a : A) → i < n → get_elem? (replicate n a) i ≡ some a
get_elem?-replicate zero i a h = absurd (omega arith)
get_elem?-replicate (suc n) zero a h = refl
get_elem?-replicate (suc n) (suc i) a h = get_elem?-replicate n i a (omega arith)

-- A new ring is empty.
pub ring_buffer-IsRing :
    {A : Type 0} (capacity : ℕ) {s : System A}
    → ring_buffer capacity ≡ some s
    → IsRing s PushPc.idle PopPc.idle [] × (s.inner.capacity ≡ capacity)
unfolding ring_buffer
ring_buffer-IsRing {A} capacity {s} e = elim (Bool-cases (capacity == 0)) [
  | inl no_slot ↦ absurd (ground arith)
  | inr some_slot ↦ elim (Bool-cases (is_power_below 64 capacity)) [
    | inl power ↦
        let is = is_power_below-IsCapacity 64 capacity (omega arith) power in
        let made : s ≡ record {
          inner = record {
            buffer = replicate capacity none;
            capacity = capacity;
            mask = capacity - 1;
            head = 0;
            tail = 0;
          };
          producer = record { cached_head = 0; cached_tail = 0 };
          consumer = record { cached_tail = 0; cached_head = 0 };
          push_pc = PushPc.idle;
          pop_pc = PopPc.idle;
          pushed = [];
          popped = [];
        } =
          ground arith in
        rw made (
          record {
            push_is = refl;
            pop_is = refl;
            shape = record {
              capacity = is;
              mask_is = omega (arith, is.positive);
              sized = length-replicate capacity none;
            };
            history = refl;
            seen_tail = 0;
            seen_head = 0;
            counts = omega arith;
            has_room = tt;
            has_value = tt;
            slots = λ d h.
                get_elem?-replicate capacity ((0 + d) % capacity) none (mod-lt (0 + d) is.positive);
          },
          refl,
        )
    | inr other ↦ absurd (ground arith)
  ]
]

-- What a state stands for.
pub record IsHolding {A : Type 0} (capacity : ℕ) (s : System A) : Type 0 where
  pub push_at : PushPc A
  pub pop_at : PopPc A
  pub queue : List A
  pub ring : IsRing s push_at pop_at queue
  pub same : s.inner.capacity ≡ capacity

pub Reach-IsHolding :
    {A : Type 0} {capacity : ℕ} {s : System A} → Reach capacity s → IsHolding capacity s
Reach-IsHolding {capacity} (start e) =
    let (ring, same) = ring_buffer-IsRing capacity e in
    record { push_at = PushPc.idle; pop_at = PopPc.idle; queue = []; ring = ring; same = same }
Reach-IsHolding (later r step) =
    let h = Reach-IsHolding r in
    let (next, kept) = Step-IsNext h.ring step in
    record {
      push_at = next.push_at;
      pop_at = next.pop_at;
      queue = next.after;
      ring = next.ring;
      same = kept ∙ h.same;
    }

module _ {A : Type 0} {capacity : ℕ} {s : System A} (r : Reach capacity s) where
  -- In every reachable state the values pushed are those popped, in the same order, and then those
  -- in the ring, which are no more than the capacity.
  pub pushed-popped : (queue : List A) × (s.pushed ≡ s.popped ++ queue) × (length queue ≤ capacity)
  pushed-popped =
      let h = Reach-IsHolding r in
      let ring = h.ring in let n = counted ring in (h.queue, ring.history, omega (arith, h.same))

  -- Every step is one of a queue bounded by the capacity, or leaves it alone: the queue is that of
  -- the values pushed and not yet popped, before and after.
  pub Step-QueueStep :
      {t : System A}
      → Step s t
      → (queue after : List A) × (s.pushed ≡ s.popped ++ queue)
        × (t.pushed ≡ t.popped ++ after)
        × QueueStep capacity queue after
  Step-QueueStep step =
      let h = Reach-IsHolding r in
      let (next, kept) = Step-IsNext h.ring step in
      (
        h.queue,
        next.after,
        h.ring.history,
        next.ring.history,
        subst (λ c. QueueStep c h.queue next.after) h.same next.refines,
      )

  -- No access panics, writes over a value or reads a slot that holds none, whatever the loads see.
  pub step-defined :
      (seen : ℕ)
      → (IsCoherent seen s.producer.cached_tail s.inner.tail
          → (t : System A) × (push_step seen s s.push_pc ≡ some t))
        × (IsCoherent seen s.consumer.cached_head s.inner.head
            → (t : System A) × (pop_step seen s s.pop_pc ≡ some t))
  step-defined seen =
      let h = Reach-IsHolding r in
      let ring = h.ring in
      (
        λ load.
            let (t, run, _) =
              value (push_step-IsNext s h.queue seen h.push_at h.pop_at ring load) in
            (t, ap (push_step seen s) ring.push_is ∙ run),
        λ load.
            let (t, run, _) = value (pop_step-IsNext s h.queue seen h.push_at h.pop_at ring load) in
            (t, ap (pop_step seen s) ring.pop_is ∙ run),
      )
