-- ===== src/Ring/Slots.antt =====
-- What a write, a read and a release do to the slots from the tail on.
use native.Mathlib.Nat.{add-mod_right}
use ferrox.Prelude.{
  Bool, Bool-cases, ap, arith, false, get_elem?, get_elem?-set_ne, get_elem?-set_self,
  if◌then◌else◌, inl, inr, length, length-set, ltb, none, refl, set, some, suc, sym, true, zero,
  ◌%◌, ◌++◌, ◌+◌, ◌<◌, ◌==◌, ◌∙◌, ◌∷◌, ◌≡◌, ◌≤◌, ℕ, List, Option, [],
}
use ferrox.Ring.{RingBufferInner, set_slot}
use ferrox.Ring.Index.{index_injective}
use ferrox.Ring.Inv.{IsShape, AreSlots}

get_elem?-snoc :
    {A : Type 0} (xs : List A) (v : A) (d : ℕ)
    → get_elem? (xs ++ v ∷ []) d ≡ (if d == length xs then some v else get_elem? xs d)
get_elem?-snoc [] v zero = refl
get_elem?-snoc [] v (suc d) = ground arith
get_elem?-snoc (x ∷ xs) v zero = ground arith
get_elem?-snoc (x ∷ xs) v (suc d) = ground (arith, get_elem?-snoc xs v d)

pub get_elem?_past : {A : Type 0} (xs : List A) (d : ℕ) → length xs ≤ d → get_elem? xs d ≡ none
get_elem?_past [] d h = refl
get_elem?_past (x ∷ xs) zero h = absurd (omega arith)
get_elem?_past (x ∷ xs) (suc d) h = get_elem?_past xs d (omega arith)

pub IsShape-set :
    {A : Type 0} (r : RingBufferInner A) (i : ℕ) (c : Option A)
    → IsShape r
    → IsShape (set_slot r i c)
IsShape-set r i c is = record {
  capacity = is.capacity;
  mask_is = is.mask_is;
  sized = length-set r.buffer i c ∙ is.sized;
}

module _ {A : Type 0} (r : RingBufferInner A) (popped : ℕ) (is : IsShape r) where
  abbrev at : ℕ → ℕ
  at d = (popped + d) % r.capacity

  at_lt : (d : ℕ) → at d < length r.buffer
  at_lt d = let pos = is.capacity.positive in grind (arith, is.sized)

  get_elem?-set-at :
      (e : ℕ) (c : Option A) (d : ℕ)
      → e < r.capacity
      → d < r.capacity
      → get_elem? (set r.buffer (at e) c) (at d)
        ≡ (if d == e then some c else get_elem? r.buffer (at d))
  get_elem?-set-at e c d he hd = elim (Bool-cases (d == e)) [
    | inl same ↦
        let d_is : d ≡ e = ground arith in
        rw (same, d_is) (get_elem?-set_self r.buffer (at e) c (at_lt e))
    | inr other ↦ rw other (
        get_elem?-set_ne r.buffer (at e) (at d) c
          (λ h. ground (arith, index_injective popped r.capacity e d he hd h)))
  ]

  pub AreSlots-write :
      (front : Bool) (queue : List A) (v : A)
      → length queue < r.capacity
      → (front ≡ true → 0 < length queue)
      → AreSlots r popped front queue
      → AreSlots (set_slot r (at (length queue)) (some v)) popped front (queue ++ v ∷ [])
  AreSlots-write front queue v room some_queue slots d h =
      get_elem?-set-at (length queue) (some v) d room h
      ∙ ground (arith, slots d h, get_elem?-snoc queue v d)

  pub AreSlots-read :
      (cells : List A)
      → AreSlots r popped false cells
      → AreSlots (set_slot r (at 0) none) popped true cells
  AreSlots-read cells slots d h =
      get_elem?-set-at 0 none d (omega arith) h ∙ ground (arith, slots d h)

  pub AreSlots-release :
      (x : A) (cells : List A)
      → length cells < r.capacity
      → AreSlots r popped true (x ∷ cells)
      → AreSlots r (popped + 1) false cells
  AreSlots-release x cells room slots d h = elim (Bool-cases (ltb (suc d) r.capacity)) [
    | inl inside ↦
        let next : (popped + 1) + d ≡ popped + suc d = omega arith in
        rw next (slots (suc d) (ground arith) ∙ ground arith)
    | inr last ↦
        let next : (popped + 1) + d ≡ popped + r.capacity = ground arith in
        let wrap : (popped + r.capacity) % r.capacity ≡ (popped + 0) % r.capacity =
          add-mod_right popped r.capacity ∙ ap (λ (k : ℕ). k % r.capacity) (omega arith) in
        rw (next, wrap)
          (slots 0 is.capacity.positive ∙ ap some (sym (get_elem?_past cells d (ground arith))))
  ]
