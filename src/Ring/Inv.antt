-- ===== src/Ring/Inv.antt =====
-- What the ring stands for, a queue, and the invariant of the ring and its two threads.
use ferrox.Prelude.{
  get_elem?-lt, arith, ◌-◌, Bool, ap, false, get_elem?, if◌then◌else◌, length, length-append, none,
  some, true, ◌%◌, ◌&&◌, ◌++◌, ◌+◌, ◌<◌, ◌==◌, ◌∙◌, ◌∷◌, ◌≡◌, ◌≤◌, ℕ, List, Option, [],
}
use ferrox.Ring.{slot_index, RingBufferInner, words, wrapping_sub, System, PushPc, PopPc}
use ferrox.Ring.Index.{mod-words, IsCapacity}

module _ {A : Type 0} where
  -- The value that is written and not yet published.
  abbrev pub back : PushPc A → List A
  back PushPc.idle = []
  back (PushPc.full v) = []
  back (PushPc.entered v) = []
  back (PushPc.ready v) = []
  back (PushPc.written v) = v ∷ []

  -- Whether the front value has been moved out and not yet released.
  abbrev pub is_taken : PopPc A → Bool
  is_taken PopPc.idle = false
  is_taken PopPc.empty = false
  is_taken PopPc.entered = false
  is_taken PopPc.ready = false
  is_taken (PopPc.taken v) = true

  -- The slot `d` places behind the tail, where `cells` are the values from the tail on.
  abbrev pub cell : Bool → List A → ℕ → Option A
  cell front cells d = if front && d == 0 then none else get_elem? cells d

  -- What a thread knows where it stands: that there is room, and that there is a value.
  abbrev pub HasRoom : PushPc A → (pushed seen_tail capacity : ℕ) → Type 0
  HasRoom (PushPc.ready v) pushed seen_tail capacity = pushed < seen_tail + capacity
  HasRoom (PushPc.written v) pushed seen_tail capacity = pushed < seen_tail + capacity
  HasRoom PushPc.idle pushed seen_tail capacity = Unit
  HasRoom (PushPc.full v) pushed seen_tail capacity = Unit
  HasRoom (PushPc.entered v) pushed seen_tail capacity = Unit

  abbrev pub HasValue : PopPc A → List A → (popped seen_head : ℕ) → Type 0
  HasValue PopPc.ready queue popped seen_head = popped < seen_head
  HasValue (PopPc.taken v) queue popped seen_head =
      (popped < seen_head) × (get_elem? queue 0 ≡ some v)
  HasValue PopPc.idle queue popped seen_head = Unit
  HasValue PopPc.empty queue popped seen_head = Unit
  HasValue PopPc.entered queue popped seen_head = Unit

-- The mask fits the capacity, and there are as many slots.
pub record IsShape {A : Type 0} (r : RingBufferInner A) : Type 0 where
  pub capacity : IsCapacity r.capacity
  pub mask_is : r.mask + 1 ≡ r.capacity
  pub sized : length r.buffer ≡ r.capacity

-- The cursors count the values that were pushed and popped, modulo 2 ^ 64, and each thread has seen
-- some count of the other.
pub record IsCount {A : Type 0} (s : System A) (pushed popped seen_tail seen_head : ℕ)
    : Type 0 where
  pub head_is : s.inner.head ≡ pushed % words
  pub tail_is : s.inner.tail ≡ popped % words
  pub own_head : s.producer.cached_head ≡ pushed % words
  pub own_tail : s.consumer.cached_tail ≡ popped % words
  pub copied_tail : s.producer.cached_tail ≡ seen_tail % words
  pub copied_head : s.consumer.cached_head ≡ seen_head % words
  pub tail_behind : seen_tail ≤ popped
  pub head_below : pushed ≤ seen_tail + s.inner.capacity
  pub head_behind : seen_head ≤ pushed
  pub tail_below : popped ≤ seen_head

-- The slots from the tail on.
abbrev pub AreSlots : {A : Type 0} → RingBufferInner A → (popped : ℕ) → Bool → List A → Type 0
AreSlots r popped front cells =
    (d : ℕ)
    → d < r.capacity
    → get_elem? r.buffer ((popped + d) % r.capacity) ≡ some (cell front cells d)

-- Where the threads stand at `push` and `pop`, the ring holds `queue`.
pub record IsRing {A : Type 0} (s : System A) (push : PushPc A) (pop : PopPc A) (queue : List A)
    : Type 0 where
  pub push_is : s.push_pc ≡ push
  pub pop_is : s.pop_pc ≡ pop
  pub shape : IsShape s.inner
  pub history : s.pushed ≡ s.popped ++ queue
  pub seen_tail : ℕ
  pub seen_head : ℕ
  pub counts : IsCount s (length s.pushed) (length s.popped) seen_tail seen_head
  pub has_room : HasRoom push (length s.pushed) seen_tail s.inner.capacity
  pub has_value : HasValue pop queue (length s.popped) seen_head
  pub slots : AreSlots s.inner (length s.popped) (is_taken pop) (queue ++ back push)

-- The values that were pushed are those that were popped and those in the ring.
pub counted :
    {A : Type 0} {s : System A} {push : PushPc A} {pop : PopPc A} {queue : List A}
    → IsRing s push pop queue
    → length s.pushed ≡ length s.popped + length queue
counted {s} {queue} is = ap length is.history ∙ length-append s.popped queue

-- A load of a cursor may see any value that it has had since the one seen before.
pub record IsCoherent (seen before current : ℕ) : Type 0 where
  pub word : seen < words
  pub since : wrapping_sub seen before ≤ wrapping_sub current before

-- What joins the queue does not change its front.
pub HasValue-append :
    {A : Type 0} (pop : PopPc A) (queue behind : List A) (popped seen_head : ℕ)
    → HasValue pop queue popped seen_head
    → HasValue pop (queue ++ behind) popped seen_head
HasValue-append PopPc.idle queue behind popped seen_head h = tt
HasValue-append PopPc.empty queue behind popped seen_head h = tt
HasValue-append PopPc.entered queue behind popped seen_head h = tt
HasValue-append PopPc.ready queue behind popped seen_head h = h
HasValue-append (PopPc.taken v) [] behind popped seen_head h = cc
HasValue-append (PopPc.taken v) (x ∷ queue) behind popped seen_head h = h

-- The distance of two cursors is that of the counts.
pub wrapping_sub_counts :
    (a b x y c : ℕ)
    → a ≡ x % words
    → b ≡ y % words
    → y ≤ x
    → x ≤ y + c
    → c ≤ 9_223_372_036_854_775_808
    → wrapping_sub a b ≡ x - y
wrapping_sub_counts a b x y c ha hb le near small = omega arith

-- What a load sees is the cursor of some count since the one seen before.
pub record IsLoaded (seen before count : ℕ) : Type 0 where
  pub loaded : ℕ
  pub loaded_is : seen ≡ loaded % words
  pub after : before ≤ loaded
  pub until : loaded ≤ count

pub IsCoherent-IsLoaded :
    (seen before current x y c : ℕ)
    → before ≡ y % words
    → current ≡ x % words
    → y ≤ x
    → x ≤ y + c
    → c ≤ 9_223_372_036_854_775_808
    → IsCoherent seen before current
    → IsLoaded seen y x
IsCoherent-IsLoaded seen before current x y c hb hc le near small load = record {
  loaded = y + wrapping_sub seen before;
  loaded_is = omega arith;
  after = omega arith;
  until = omega arith;
}

-- The slot of a cursor is that of the count.
pub slot_index-count :
    {A : Type 0} (r : RingBufferInner A) (cursor n m : ℕ)
    → IsShape r
    → cursor ≡ n % words
    → n ≡ m
    → slot_index r cursor ≡ m % r.capacity
slot_index-count r cursor n m is e f = rw (is.mask_is, e, f) (mod-words m is.capacity)

-- A front value that is moved out is there.
pub is_taken-lt :
    {A : Type 0} {s : System A} {push : PushPc A} (pop : PopPc A) (queue : List A)
    → IsRing s push pop queue
    → is_taken pop ≡ true
    → 0 < length queue
is_taken-lt PopPc.idle queue is e = cc
is_taken-lt PopPc.empty queue is e = cc
is_taken-lt PopPc.entered queue is e = cc
is_taken-lt PopPc.ready queue is e = cc
is_taken-lt (PopPc.taken v) queue is e = get_elem?-lt queue 0 is.has_value.1

-- With the value that is being pushed, the ring holds no more than the capacity.
pub back_fits :
    {A : Type 0} {s : System A} (push : PushPc A) {pop : PopPc A} {queue : List A}
    → IsRing s push pop queue
    → length (queue ++ back push) ≤ s.inner.capacity
back_fits PushPc.idle {queue} is = omega (arith, counted is, length-append queue [])
back_fits (PushPc.full v) {queue} is = omega (arith, counted is, length-append queue [])
back_fits (PushPc.entered v) {queue} is = omega (arith, counted is, length-append queue [])
back_fits (PushPc.ready v) {queue} is = omega (arith, counted is, length-append queue [])
back_fits (PushPc.written v) {queue} is = omega (arith, counted is, length-append queue (v ∷ []))
