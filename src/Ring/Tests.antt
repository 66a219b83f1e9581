-- ===== src/Ring/Tests.antt =====
-- The theorems of the ring at short schedules of its two threads.
use mathlib.Core.Path.{subst}
use ferrox.Prelude.{
  length, ◌++◌, ◌+◌, ◌↔◌, ◌≤◌, none, ◌≢◌, arith, refl, some, ◌>>=◌, ◌∷◌, ◌≡◌, ℕ, List, Option, [],
}
use ferrox.Ring.{
  drop_all, drop_from, check_room, check_value, is_power_below, power, slot_index, System, PushPc,
  PopPc, push_step, pop_step, call_push, call_pop, ring_buffer,
}
use ferrox.Ring.Inv.{IsCoherent}
use ferrox.Ring.Steps.{QueueStep, push_called, push_moved, pop_called, pop_moved}
use ferrox.Ring.Safety.{Step-QueueStep, pushed-popped, step-defined, Reach, Reach-IsHolding}
use ferrox.Ring.Access.{pop_step-empty, push_step-full, no_race}
use ferrox.Ring.Drop.{drop_all-rest}

data Act : Type 0 where
  push : ℕ → Act
  push_go pop pop_go : Act

-- A schedule in which each load sees the newest value.
abbrev act : System ℕ → Act → Option (System ℕ)
act s (push v) = some (call_push v s s.push_pc)
act s push_go = push_step s.inner.tail s s.push_pc
act s pop = some (call_pop s s.pop_pc)
act s pop_go = pop_step s.inner.head s s.pop_pc

abbrev run : List Act → System ℕ → Option (System ℕ)
run [] s = some s
run (a ∷ acts) s = do t ← act s a; run acts t

Reach-act : {s t : System ℕ} → Reach 2 s → (a : Act) → act s a ≡ some t → Reach 2 t
Reach-act {s} {t} r (push v) e =
    let same : call_push v s s.push_pc ≡ t = cc in
    subst (λ x. Reach 2 x) same (Reach.later r (push_called v))
Reach-act {s} r push_go e =
    let h = Reach-IsHolding r in
    let c = h.ring.counts in Reach.later r (push_moved s.inner.tail (omega arith) e)
Reach-act {s} {t} r pop e =
    let same : call_pop s s.pop_pc ≡ t = cc in
    subst (λ x. Reach 2 x) same (Reach.later r pop_called)
Reach-act {s} r pop_go e =
    let h = Reach-IsHolding r in
    let c = h.ring.counts in Reach.later r (pop_moved s.inner.head (omega arith) e)

bind-some :
    {A B : Type 0} (m : Option A) (f : A → Option B) {b : B}
    → (m >>= f) ≡ some b
    → (a : A) × (m ≡ some a) × (f a ≡ some b)
bind-some none f e = cc
bind-some (some a) f e = (a, refl, e)

Reach-run : (acts : List Act) {s t : System ℕ} → Reach 2 s → run acts s ≡ some t → Reach 2 t
Reach-run [] {s} {t} r e = let same : s ≡ t = cc in subst (λ x. Reach 2 x) same r
Reach-run (a ∷ acts) {s} r e =
    let (mid, first, rest) = bind-some (act s a) (run acts) e in
    Reach-run acts (Reach-act r a first) rest

abbrev or_new : Option (System ℕ) → System ℕ
or_new (some s) = s
or_new none = record {
  inner = record { buffer = []; capacity = 0; mask = 0; head = 0; tail = 0 };
  producer = record { cached_head = 0; cached_tail = 0 };
  consumer = record { cached_tail = 0; cached_head = 0 };
  push_pc = PushPc.idle;
  pop_pc = PopPc.idle;
  pushed = [];
  popped = [];
}

new : System ℕ
unfolding ring_buffer is_power_below power
new = or_new (ring_buffer 2)

new-Reach : Reach 2 new
unfolding new
new-Reach = Reach.start refl

-- 10 is pushed; then a push of 20 stands before its write, and a pop before its read.
abbrev racing_acts : List Act
racing_acts = push 10 ∷ push_go ∷ push_go ∷ push_go ∷ push 20 ∷ pop ∷ push_go ∷ pop_go ∷ []

racing : System ℕ
unfolding new push_step check_room pop_step check_value
racing = or_new (run racing_acts new)

racing-Reach : Reach 2 racing
unfolding racing
racing-Reach = Reach-run racing_acts new-Reach refl

no_race_example :
    slot_index racing.inner racing.producer.cached_head
    ≢ slot_index racing.inner racing.consumer.cached_tail
unfolding racing
no_race_example = no_race {v = 20} racing-Reach refl refl

-- Two values are in the ring, and a push of 30 is about to test for room; a pop comes after.
abbrev crowded_acts : List Act
crowded_acts = push_go ∷ push_go ∷ push 30 ∷ pop_go ∷ []

crowded : System ℕ
unfolding racing
crowded = or_new (run crowded_acts racing)

crowded-Reach : Reach 2 crowded
unfolding crowded
crowded-Reach = Reach-run crowded_acts racing-Reach refl

refused : System ℕ
unfolding crowded
refused = or_new (run (push_go ∷ []) crowded)

push_step-full_example :
    (refused.push_pc ≡ PushPc.full 30) ↔ (length crowded.pushed ≡ length crowded.popped + 2)
unfolding refused
push_step-full_example = push_step-full crowded-Reach refl refl

refused_lem : refused.push_pc ≡ PushPc.full 30
unfolding refused
refused_lem = refl

pushed-popped_example :
    (queue : List ℕ) × (crowded.pushed ≡ crowded.popped ++ queue) × (length queue ≤ 2)
pushed-popped_example = pushed-popped crowded-Reach

Step-QueueStep_example :
    (queue after : List ℕ) × (crowded.pushed ≡ crowded.popped ++ queue)
    × ((call_pop crowded crowded.pop_pc).pushed ≡ (call_pop crowded crowded.pop_pc).popped ++ after)
    × QueueStep 2 queue after
Step-QueueStep_example = Step-QueueStep crowded-Reach pop_called

step-defined_example :
    (IsCoherent 0 crowded.producer.cached_tail crowded.inner.tail
      → (t : System ℕ) × (push_step 0 crowded crowded.push_pc ≡ some t))
    × (IsCoherent 0 crowded.consumer.cached_head crowded.inner.head
        → (t : System ℕ) × (pop_step 0 crowded crowded.pop_pc ≡ some t))
step-defined_example = step-defined crowded-Reach 0

-- Both values are popped, and a third pop is about to look for one.
abbrev drained_acts : List Act
drained_acts = push_go ∷ pop_go ∷ pop ∷ pop_go ∷ pop_go ∷ pop_go ∷ pop ∷ []

drained : System ℕ
unfolding crowded
drained = or_new (run drained_acts crowded)

drained-Reach : Reach 2 drained
unfolding drained
drained-Reach = Reach-run drained_acts crowded-Reach refl

drained_lem : drained.popped ≡ 10 ∷ 20 ∷ []
unfolding drained
drained_lem = refl

found_nothing : System ℕ
unfolding drained
found_nothing = or_new (run (pop_go ∷ []) drained)

pop_step-empty_example :
    (found_nothing.pop_pc ≡ PopPc.empty) ↔ (length drained.pushed ≡ length drained.popped)
unfolding found_nothing
pop_step-empty_example = pop_step-empty drained-Reach refl refl

-- One value is left in the ring, and both threads are outside.
abbrev left_acts : List Act
left_acts = push_go ∷ pop_go ∷ []

left : System ℕ
unfolding crowded
left = or_new (run left_acts crowded)

left-Reach : Reach 2 left
unfolding left
left-Reach = Reach-run left_acts crowded-Reach refl

drop_all-rest_example :
    (rest : List ℕ) × (left.pushed ≡ left.popped ++ rest) × (drop_all left.inner ≡ some rest)
unfolding left
drop_all-rest_example = drop_all-rest left-Reach refl refl

drop_all_lem : drop_all left.inner ≡ some (20 ∷ [])
unfolding left drop_all drop_from
drop_all_lem = refl
