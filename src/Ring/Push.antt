-- ===== src/Ring/Push.antt =====
-- `Producer::push`, an access at a time.
use mathlib.Core.Path.{subst}
use ferrox.Prelude.{
  ap, append-nil, append_assoc, length-append, sym, ◌++◌, ◌<◌, ◌∷◌, arith, get_elem?, length, none,
  some, ◌%◌, ◌∙◌, ◌≡◌, ◌+◌, Bool-cases, Returns, inl, inr, refl, returns, ◌==◌, ◌⊎◌, ℕ, List, [],
}
use ferrox.Ring.{slot_index, check_room, wrapping_sub, System, PushPc, PopPc, push_step}
use ferrox.Ring.Inv.{
  AreSlots, HasValue-append, is_taken, is_taken-lt, slot_index-count, IsCoherent-IsLoaded,
  wrapping_sub_counts, IsRing, IsCoherent, counted,
}
use ferrox.Ring.Slots.{AreSlots-write, IsShape-set, get_elem?_past}

module _ {A : Type 0} (s : System A) (pop : PopPc A) (queue : List A) where
  -- What the test for room comes to.
  abbrev pub Entered : A → System A → Type 0
  Entered v s' = IsRing s' (PushPc.full v) pop queue ⊎ IsRing s' (PushPc.ready v) pop queue

  pub push_step-entered :
      (v : A) (seen : ℕ)
      → IsRing s (PushPc.entered v) pop queue
      → IsCoherent seen s.producer.cached_tail s.inner.tail
      → Returns (Entered v) (push_step seen s (PushPc.entered v))
  unfolding push_step check_room
  push_step-entered v seen is load =
      let n = counted is in
      let small = is.shape.capacity.small in
      let c = is.counts in
      let old =
        wrapping_sub_counts s.producer.cached_head s.producer.cached_tail (length s.pushed)
          is.seen_tail s.inner.capacity c.own_head c.copied_tail (omega arith) c.head_below small in
      let l =
        IsCoherent-IsLoaded seen s.producer.cached_tail s.inner.tail (length s.popped) is.seen_tail
          s.inner.capacity c.copied_tail c.tail_is c.tail_behind (omega arith) small load in
      let new =
        wrapping_sub_counts s.producer.cached_head seen (length s.pushed) l.loaded s.inner.capacity
          c.own_head l.loaded_is (omega arith) (omega arith) small in
      elim (Bool-cases
        (wrapping_sub s.producer.cached_head s.producer.cached_tail == s.inner.capacity)) [
          | inl maybe ↦
              rw maybe
                (elim (Bool-cases (wrapping_sub s.producer.cached_head seen == s.inner.capacity)) [
                  | inl no_room ↦ rw no_room (
                      returns (
                        inl (record {
                          push_is = refl;
                          pop_is = is.pop_is;
                          shape = is.shape;
                          history = is.history;
                          seen_tail = l.loaded;
                          seen_head = is.seen_head;
                          counts = omega arith;
                          has_room = tt;
                          has_value = is.has_value;
                          slots = is.slots;
                        })))
                  | inr room ↦ rw room (
                      returns (
                        inr (record {
                          push_is = refl;
                          pop_is = is.pop_is;
                          shape = is.shape;
                          history = is.history;
                          seen_tail = l.loaded;
                          seen_head = is.seen_head;
                          counts = omega arith;
                          has_room = ground arith;
                          has_value = is.has_value;
                          slots = is.slots;
                        })))
                ])
          | inr room ↦ rw room (
              returns (
                inr (record {
                  push_is = refl;
                  pop_is = is.pop_is;
                  shape = is.shape;
                  history = is.history;
                  seen_tail = is.seen_tail;
                  seen_head = is.seen_head;
                  counts = omega arith;
                  has_room = ground arith;
                  has_value = is.has_value;
                  slots = is.slots;
                })))
        ]

  -- The write finds the slot free.
  pub push_step-ready :
      (v : A) (seen : ℕ)
      → IsRing s (PushPc.ready v) pop queue
      → Returns (λ s'. IsRing s' (PushPc.written v) pop queue) (push_step seen s (PushPc.ready v))
  unfolding push_step
  push_step-ready v seen is =
      let n = counted is in
      let c = is.counts in
      let room : length queue < s.inner.capacity = omega arith in
      let at : slot_index s.inner s.producer.cached_head
          ≡ (length s.popped + length queue) % s.inner.capacity =
        slot_index-count s.inner s.producer.cached_head (length s.pushed)
          (length s.popped + length queue) is.shape c.own_head n in
      let plain : AreSlots s.inner (length s.popped) (is_taken pop) queue =
        subst (λ cells. AreSlots s.inner (length s.popped) (is_taken pop) cells) (append-nil queue)
          is.slots in
      let free : get_elem? s.inner.buffer ((length s.popped + length queue) % s.inner.capacity)
          ≡ some none =
        plain (length queue) room ∙ ap some (ground (arith, get_elem?_past queue (length queue))) in
      rw (at, free)
        (returns (record {
          push_is = refl;
          pop_is = is.pop_is;
          shape = IsShape-set s.inner _ (some v) is.shape;
          history = is.history;
          seen_tail = is.seen_tail;
          seen_head = is.seen_head;
          counts = omega arith;
          has_room = is.has_room;
          has_value = is.has_value;
          slots =
              AreSlots-write s.inner (length s.popped) is.shape (is_taken pop) queue v room
                (is_taken-lt pop queue is) plain;
        }))

  -- The store of `head` publishes the value: it joins the queue.
  pub push_step-written :
      (v : A) (seen : ℕ)
      → IsRing s (PushPc.written v) pop queue
      → Returns
          (λ s'. IsRing s' PushPc.idle pop (queue ++ v ∷ []) × (s'.popped ≡ s.popped))
          (push_step seen s (PushPc.written v))
  unfolding push_step
  push_step-written v seen is =
      let n = counted is in
      let more = length-append s.pushed (v ∷ []) in
      let c = is.counts in
      returns (
        record {
          push_is = refl;
          pop_is = is.pop_is;
          shape = record {
            capacity = is.shape.capacity;
            mask_is = is.shape.mask_is;
            sized = is.shape.sized;
          };
          history = ap (λ xs. xs ++ v ∷ []) is.history ∙ append_assoc s.popped queue (v ∷ []);
          seen_tail = is.seen_tail;
          seen_head = is.seen_head;
          counts = omega arith;
          has_room = tt;
          has_value =
              HasValue-append pop queue (v ∷ []) (length s.popped) is.seen_head is.has_value;
          slots =
              subst (λ cells. AreSlots s.inner (length s.popped) (is_taken pop) cells)
                (sym (append-nil (queue ++ v ∷ []))) is.slots;
        },
        refl,
      )
