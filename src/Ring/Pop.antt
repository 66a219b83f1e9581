-- ===== src/Ring/Pop.antt =====
-- `Consumer::pop`, an access at a time.
use mathlib.Core.Path.{subst}
use ferrox.Prelude.{
  Bool-cases, Returns, ap, append_assoc, arith, false, get_elem?, inl, inr, length, length-append,
  none, refl, returns, some, sym, ◌%◌, ◌++◌, ◌+◌, ◌==◌, ◌∙◌, ◌∷◌, ◌≡◌, ◌⊎◌, ℕ, List, [],
}
use ferrox.Ring.{check_value, slot_index, System, PushPc, PopPc, pop_step}
use ferrox.Ring.Inv.{
  AreSlots, IsCoherent-IsLoaded, back, back_fits, slot_index-count, IsRing, IsCoherent, counted,
}
use ferrox.Ring.Slots.{AreSlots-read, AreSlots-release, IsShape-set}

module _ {A : Type 0} (s : System A) (push : PushPc A) (queue : List A) where
  -- What the test for a value comes to.
  abbrev pub Found : System A → Type 0
  Found s' = IsRing s' push PopPc.empty queue ⊎ IsRing s' push PopPc.ready queue

  pub pop_step-entered :
      (seen : ℕ)
      → IsRing s push PopPc.entered queue
      → IsCoherent seen s.consumer.cached_head s.inner.head
      → Returns Found (pop_step seen s PopPc.entered)
  unfolding pop_step check_value
  pop_step-entered seen is load =
      let n = counted is in
      let small = is.shape.capacity.small in
      let c = is.counts in
      let l =
        IsCoherent-IsLoaded seen s.consumer.cached_head s.inner.head (length s.pushed) is.seen_head
          s.inner.capacity c.copied_head c.head_is c.head_behind (omega arith) small load in
      elim (Bool-cases (s.consumer.cached_tail == s.consumer.cached_head)) [
        | inl maybe ↦ rw maybe (elim (Bool-cases (s.consumer.cached_tail == seen)) [
          | inl nothing ↦ rw nothing (
              returns (
                inl (record {
                  push_is = is.push_is;
                  pop_is = refl;
                  shape = is.shape;
                  history = is.history;
                  seen_tail = is.seen_tail;
                  seen_head = l.loaded;
                  counts = omega arith;
                  has_room = is.has_room;
                  has_value = tt;
                  slots = is.slots;
                })))
          | inr found ↦ rw found (
              returns (
                inr (record {
                  push_is = is.push_is;
                  pop_is = refl;
                  shape = is.shape;
                  history = is.history;
                  seen_tail = is.seen_tail;
                  seen_head = l.loaded;
                  counts = omega arith;
                  has_room = is.has_room;
                  has_value = ground arith;
                  slots = is.slots;
                })))
        ])
        | inr found ↦ rw found (
            returns (
              inr (record {
                push_is = is.push_is;
                pop_is = refl;
                shape = is.shape;
                history = is.history;
                seen_tail = is.seen_tail;
                seen_head = is.seen_head;
                counts = omega arith;
                has_room = is.has_room;
                has_value = ground arith;
                slots = is.slots;
              })))
      ]

-- The read finds a value, the front of the queue.
pub pop_step-ready :
    {A : Type 0} (s : System A) (push : PushPc A) (queue : List A) (seen : ℕ)
    → IsRing s push PopPc.ready queue
    → Returns
        (λ s'.
          (v : A) × (rest : List A) × (queue ≡ v ∷ rest) × IsRing s' push (PopPc.taken v) queue)
        (pop_step seen s PopPc.ready)
unfolding pop_step
pop_step-ready s push [] seen is = let n = counted is in absurd (omega arith)
pop_step-ready s push (x ∷ queue) seen is =
    let c = is.counts in
    let at : slot_index s.inner s.consumer.cached_tail ≡ (length s.popped + 0) % s.inner.capacity =
      slot_index-count s.inner s.consumer.cached_tail (length s.popped) (length s.popped + 0)
        is.shape c.own_tail (omega arith) in
    let held : get_elem? s.inner.buffer ((length s.popped + 0) % s.inner.capacity) ≡ some (some x) =
      is.slots 0 is.shape.capacity.positive ∙ ground arith in
    rw (at, held)
      (returns (
        x,
        queue,
        refl,
        record {
          push_is = is.push_is;
          pop_is = refl;
          shape = IsShape-set s.inner _ none is.shape;
          history = is.history;
          seen_tail = is.seen_tail;
          seen_head = is.seen_head;
          counts = omega arith;
          has_room = is.has_room;
          has_value = (is.has_value, refl);
          slots =
              AreSlots-read s.inner (length s.popped) is.shape ((x ∷ queue) ++ back push) is.slots;
        },
      ))

-- The store of `tail` releases the slot: the value leaves the queue.
pub pop_step-taken :
    {A : Type 0} (s : System A) (push : PushPc A) (queue : List A) (v : A) (seen : ℕ)
    → IsRing s push (PopPc.taken v) queue
    → Returns
        (λ s'. (rest : List A) × (queue ≡ v ∷ rest) × IsRing s' push PopPc.idle rest)
        (pop_step seen s (PopPc.taken v))
unfolding pop_step
pop_step-taken s push [] v seen is = let e = is.has_value.1 in cc
pop_step-taken s push (x ∷ queue) v seen is =
    let n = counted is in
    let c = is.counts in
    let same : x ≡ v = let e = is.has_value.1 in ground arith in
    let more = length-append s.popped (v ∷ []) in
    let behind = back_fits push is in
    returns (
      queue,
      ap (λ y. y ∷ queue) same,
      record {
        push_is = is.push_is;
        pop_is = refl;
        shape = record {
          capacity = is.shape.capacity;
          mask_is = is.shape.mask_is;
          sized = is.shape.sized;
        };
        history =
            is.history
            ∙ ap (λ y. s.popped ++ y ∷ queue) same
            ∙ sym (append_assoc s.popped (v ∷ []) queue);
        seen_tail = is.seen_tail;
        seen_head = is.seen_head;
        counts = omega arith;
        has_room = is.has_room;
        has_value = tt;
        slots =
            subst (λ k. AreSlots s.inner k false (queue ++ back push)) (omega arith)
              (AreSlots-release s.inner (length s.popped) is.shape x (queue ++ back push) behind
                is.slots);
      },
    )
