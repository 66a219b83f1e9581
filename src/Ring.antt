-- ===== src/Ring.antt =====
-- src/ring.rs: the ring buffer between the thread that reads commands and the matching thread, one
-- shared access at a time. A panic or undefined behaviour is `none`.
use ferrox.Prelude.{
  Bool, false, get_elem?, if◌then◌else◌, none, not, replicate, set, some, suc, true, zero, ◌%◌,
  ◌++◌, ◌+◌, ◌*◌, ◌-◌, ◌==◌, ◌>>=◌, ◌||◌, ◌∷◌, ℕ, List, Option, [],
}
pub mod Access
pub mod Drop
pub mod Index
pub mod Inv
pub mod Pop
pub mod Push
pub mod Refine
pub mod Safety
pub mod Slots
pub mod Steps
mod Tests

-- 2 ^ 64, the number of values of a `usize`.
abbrev pub words : ℕ
words = 18_446_744_073_709_551_616

-- `usize::wrapping_add` and `usize::wrapping_sub`
abbrev pub wrapping_add : ℕ → ℕ → ℕ
wrapping_add a b = (a + b) % words

abbrev pub wrapping_sub : ℕ → ℕ → ℕ
wrapping_sub a b = (a + words - b) % words

-- A slot that holds no value is `none`.
abbrev pub Slot : Type 0 → Type 0
Slot A = Option A

module _ {A : Type 0} where
  -- `Slot::write`: the slot must not hold a live value.
  abbrev pub write : Slot A → A → Option (Slot A)
  write none v = some (some v)
  write (some _) v = none

  -- `Slot::read`: the slot must hold a value, which is moved out of it.
  abbrev pub read : Slot A → Option (A × Slot A)
  read none = none
  read (some v) = some (v, none)

pub record RingBufferInner (A : Type 0) : Type 0 where
  pub buffer : List (Slot A)
  pub capacity : ℕ
  pub mask : ℕ
  pub head : ℕ
  pub tail : ℕ

pub record Producer : Type 0 where
  pub cached_head : ℕ
  pub cached_tail : ℕ

pub record Consumer : Type 0 where
  pub cached_tail : ℕ
  pub cached_head : ℕ

-- `usize::is_power_of_two`: 2 to a power below 64.
unfoldable pub power : ℕ → ℕ
power zero = 1
power (suc k) = 2 * power k

unfoldable pub is_power_below : ℕ → ℕ → Bool
is_power_below zero n = false
is_power_below (suc k) n = n == power k || is_power_below k n

-- The test for a value in `pop`, with the value of `head` that a load would see.
unfoldable pub check_value : Consumer → (seen : ℕ) → Consumer × Bool
check_value c seen =
    if c.cached_tail == c.cached_head
    then (record c { cached_head = seen }, not (c.cached_tail == seen))
    else (c, true)

-- Where the thread of the producer stands: outside of `push`, after which it may have been given its
-- value back, before the test for room, before the write to the slot, before the store of `head`.
pub data PushPc (A : Type 0) : Type 0 where
  idle : PushPc A
  full : A → PushPc A
  entered ready written : A → PushPc A

-- Where the thread of the consumer stands: outside of `pop`, after which it may have found nothing,
-- before the test for a value, before the read of the slot, before the store of `tail`.
pub data PopPc (A : Type 0) : Type 0 where
  idle empty entered ready : PopPc A
  taken : A → PopPc A

-- The ring and its two threads, with what was pushed and what was popped so far.
pub record System (A : Type 0) : Type 0 where
  pub inner : RingBufferInner A
  pub producer : Producer
  pub consumer : Consumer
  pub push_pc : PushPc A
  pub pop_pc : PopPc A
  pub pushed : List A
  pub popped : List A

module _ {A : Type 0} where
  -- `cursor & mask`, where the mask is one less than a power of two
  abbrev pub slot_index : RingBufferInner A → ℕ → ℕ
  slot_index r cursor = cursor % (r.mask + 1)

  abbrev pub set_slot : RingBufferInner A → ℕ → Slot A → RingBufferInner A
  set_slot r i c = record r { buffer = set r.buffer i c }

  -- The test for room in `push`, with the value of `tail` that a load would see: the copy of `tail`
  -- that the producer has then, and whether there is room.
  unfoldable pub check_room : RingBufferInner A → Producer → (seen : ℕ) → Producer × Bool
  check_room r p seen =
      if wrapping_sub p.cached_head p.cached_tail == r.capacity
      then (record p { cached_tail = seen }, not (wrapping_sub p.cached_head seen == r.capacity))
      else (p, true)

  -- One access of `push`.
  unfoldable pub push_step : (seen : ℕ) → System A → PushPc A → Option (System A)
  push_step seen s idle = some s
  push_step seen s (full v) = some s
  push_step seen s (entered v) =
      let (producer, room) = check_room s.inner s.producer seen in
      some (record s { producer = producer; push_pc = if room then ready v else full v })
  push_step seen s (ready v) = do
    c ← get_elem? s.inner.buffer (slot_index s.inner s.producer.cached_head)
    c' ← write c v
    some (record s {
      inner = set_slot s.inner (slot_index s.inner s.producer.cached_head) c';
      push_pc = written v;
    })
  push_step seen s (written v) =
      let head : ℕ = wrapping_add s.producer.cached_head 1 in
      some (record s {
        inner = record s.inner { head = head };
        producer = record s.producer { cached_head = head };
        push_pc = idle;
        pushed = s.pushed ++ v ∷ [];
      })

  -- One access of `pop`.
  unfoldable pub pop_step : (seen : ℕ) → System A → PopPc A → Option (System A)
  pop_step seen s idle = some s
  pop_step seen s empty = some s
  pop_step seen s entered =
      let (consumer, found) = check_value s.consumer seen in
      some (record s { consumer = consumer; pop_pc = if found then ready else empty })
  pop_step seen s ready = do
    c ← get_elem? s.inner.buffer (slot_index s.inner s.consumer.cached_tail)
    (v, c') ← read c
    some (record s {
      inner = set_slot s.inner (slot_index s.inner s.consumer.cached_tail) c';
      pop_pc = taken v;
    })
  pop_step seen s (taken v) =
      let tail : ℕ = wrapping_add s.consumer.cached_tail 1 in
      some (record s {
        inner = record s.inner { tail = tail };
        consumer = record s.consumer { cached_tail = tail };
        pop_pc = idle;
        popped = s.popped ++ v ∷ [];
      })

  -- A call, which a thread makes outside of the last one.
  abbrev pub call_push : A → System A → PushPc A → System A
  call_push v s idle = record s { push_pc = entered v }
  call_push v s (full _) = record s { push_pc = entered v }
  call_push v s _ = s

  abbrev pub call_pop : System A → PopPc A → System A
  call_pop s idle = record s { pop_pc = entered }
  call_pop s empty = record s { pop_pc = entered }
  call_pop s _ = s

  -- `ring_buffer`
  unfoldable pub ring_buffer : ℕ → Option (System A)
  ring_buffer capacity =
      if capacity == 0
      then none
      else (if is_power_below 64 capacity
          then some (record {
            inner = record {
              buffer = replicate capacity none;
              capacity = capacity;
              mask = capacity - 1;
              head = 0;
              tail = 0;
            };
            producer = record { cached_head = 0; cached_tail = 0 };
            consumer = record { cached_tail = 0; cached_head = 0 };
            push_pc = idle;
            pop_pc = idle;
            pushed = [];
            popped = [];
          })
          else none)

  -- The loop of `RingBufferInner::drop` from a cursor on: the values that it drops. A slot must hold
  -- one. A loop that outlives its fuel is `none`.
  unfoldable pub drop_from : ℕ → RingBufferInner A → ℕ → Option (List A)
  drop_from zero r i = none
  drop_from (suc fuel) r i =
      let rest : RingBufferInner A → Option (List A) = λ r'. drop_from fuel r' (wrapping_add i 1) in
      if i == r.head then some [] else do
        c ← get_elem? r.buffer (slot_index r i)
        (v, c') ← read c
        vs ← rest (set_slot r (slot_index r i) c')
        some (v ∷ vs)

  unfoldable pub drop_all : RingBufferInner A → Option (List A)
  drop_all r = drop_from (suc r.capacity) r r.tail
