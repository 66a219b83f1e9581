-- ===== src/Arena/Pool.antt =====
-- The free list of the arena: `Arena::new`, `Arena::alloc` and `Arena::dealloc`.
use ferrox.Prelude.{
  if◌then◌else◌, leb, ltb, suc, zero, ◌&&◌, List, Result, Returns, [], ap, arith, bind, err, false,
  get_elem?, get_elem?-lt, get_elem?_of_lt, length, ok, refl, returns, set, some, sym, true, ◌+◌,
  ◌<◌, ◌==◌, ◌∙◌, ◌∷◌, ◌≡◌, ◌≢◌, ◌≤◌, ℕ, count,
}
use ferrox.Order.{Order}
use ferrox.Arena.{
  Arena, OrderNode, ArenaError, full, Storage, arena_null, alloc, dealloc, zeroed, from_order,
  add_u32, new_nodes, new,
}
use ferrox.Arena.Relink.{set-Wrote, set_next-Wrote}
use ferrox.Arena.Level.{Keeps}
use ferrox.Arena.Seg.{Cells, uses}

-- From `head` the `next` indices lead through the free slots to the null index.
pub data Free (st : Storage) : ℕ → List ℕ → Type 0 where
  nil : {h : ℕ} → h ≡ arena_null → Free st h []
  cons :
      {i : ℕ} {nd : OrderNode} {is : List ℕ}
      → get_elem? st i ≡ some nd
      → Free st nd.next is
      → Free st i (i ∷ is)

-- The arena holds `capacity` slots, those of `free` are free, and `count` are not.
pub record IsArena (arena : Arena) (free : List ℕ) : Type 0 where
  pub pool : Free arena.storage arena.free_head free
  pub size : length arena.storage ≡ arena.capacity
  pub small : arena.capacity ≤ arena_null
  pub counted : arena.count + length free ≡ arena.capacity

pub Free-frame :
    {st st' : Storage} {h : ℕ} {free : List ℕ}
    → Free st h free
    → ((a : ℕ) → 0 < count a free → get_elem? st' a ≡ get_elem? st a)
    → Free st' h free
Free-frame (nil e) same = nil e
Free-frame (cons {i} {nd} e f) same =
    cons {nd = nd} (ground (arith, same i)) (Free-frame f (λ a u. same a (omega arith)))

Free-nil : {st : Storage} {h : ℕ} → Free st h [] → h ≡ arena_null
Free-nil (nil e) = e

Free-cons :
    {st : Storage} {h i : ℕ} {free : List ℕ}
    → Free st h (i ∷ free)
    → (h ≡ i) × (nd : OrderNode) × (get_elem? st i ≡ some nd) × Free st nd.next free
Free-cons (cons {nd} e f) = (refl, nd, e, f)

-- What `alloc` promises: the first free slot, or an error and nothing changed.
abbrev pub Allocated : Arena → Order → List ℕ → Result ArenaError ℕ × Arena → Type 0
Allocated arena order [] (r, arena') = (r ≡ err full) × (arena' ≡ arena)
Allocated arena order (i ∷ free) (r, arena') =
    (r ≡ ok i)
    × (get_elem? arena'.storage i ≡ some (from_order order))
    × ((a : ℕ) → a ≢ i → get_elem? arena'.storage a ≡ get_elem? arena.storage a)
    × (arena'.count ≡ arena.count + 1)
    × (arena'.capacity ≡ arena.capacity)
    × IsArena arena' free

-- `alloc` hands out the first free slot with the order in it and leaves every other slot alone, or
-- reports `Full` exactly when no slot is free; it does not panic.
pub alloc-Allocated :
    {arena : Arena} {free : List ℕ} (order : Order)
    → IsArena arena free
    → ((a : ℕ) → count a free ≤ 1)
    → Returns (Allocated arena order free) (alloc arena order)
unfolding alloc
alloc-Allocated {arena} {free = []} order is u =
    let empty : (arena.free_head == arena_null) ≡ true = ground (arith, Free-nil is.pool) in
    rw empty (returns (refl, refl))
alloc-Allocated {arena} {free = i ∷ free} order is u =
    let (first, nd, at, rest) = Free-cons is.pool in
    let at' : get_elem? arena.storage arena.free_head ≡ some nd =
      ap (get_elem? arena.storage) first ∙ at in
    let inside = get_elem?-lt arena.storage i at in
    let some_free : (arena.free_head == arena_null) ≡ false = ground (arith, is.size, is.small) in
    let w = set-Wrote arena.storage arena.free_head (from_order order) (omega (arith, is.size)) in
    rw (some_free, at')
      (returns (
        ap ok first,
        ap (get_elem? (set arena.storage arena.free_head (from_order order))) (sym first) ∙ w.here,
        λ a ne. w.others a (λ e. ne (e ∙ first)),
        omega (arith, is.counted, is.small),
        refl,
        record {
          pool = Free-frame rest (λ a u'. w.others a (λ e. ground (arith, u i)));
          size = w.size ∙ is.size;
          small = is.small;
          counted = omega (arith, is.counted, is.small);
        },
      ))

-- `dealloc` of a slot in use puts it at the front of the free list and leaves every other slot
-- alone; it does not panic.
pub dealloc-cons :
    {arena : Arena} {free : List ℕ} (i : ℕ)
    → IsArena arena free
    → i < arena.capacity
    → count i free ≡ 0
    → 0 < arena.count
    → Returns
        (λ arena'.
          IsArena arena' (i ∷ free)
          × (arena'.count + 1 ≡ arena.count)
          × (arena'.capacity ≡ arena.capacity)
          × ((a : ℕ) → a ≢ i → get_elem? arena'.storage a ≡ get_elem? arena.storage a))
        (dealloc arena i)
unfolding dealloc
dealloc-cons {arena} {free} i is inside out some_used =
    let (nd, at) = get_elem?_of_lt arena.storage i (omega (arith, is.size)) in
    bind (set_next-Wrote arena.free_head at) λ st' w. returns (
      record {
        pool = cons w.here (Free-frame is.pool (λ a u. w.others a (λ e. ground arith)));
        size = w.size ∙ is.size;
        small = is.small;
        counted = omega (arith, is.counted, is.small);
      },
      omega (arith, is.counted, is.small),
      refl,
      w.others,
    )

-- The indices `i..i + rounds`.
abbrev pub upto : (rounds i : ℕ) → List ℕ
upto zero i = []
upto (suc rounds) i = i ∷ upto rounds (i + 1)

length-upto : (rounds i : ℕ) → length (upto rounds i) ≡ rounds
length-upto zero i = refl
length-upto (suc rounds) i = ap suc (length-upto rounds (i + 1))

-- The indices `i..i + rounds` are those numbers, each once.
pub count-upto :
    (a rounds i : ℕ) → count a (upto rounds i) ≡ (if leb i a && ltb a (i + rounds) then 1 else 0)
count-upto a zero i = ground arith
count-upto a (suc rounds) i = ground (arith, count-upto a rounds (i + 1))

length-new_nodes : (rounds i cap : ℕ) → length (new_nodes rounds i cap) ≡ rounds
unfolding new_nodes
length-new_nodes zero i cap = refl
length-new_nodes (suc rounds) i cap = ap suc (length-new_nodes rounds (i + 1) cap)

-- The slot that follows `i` in a new arena.
abbrev after : (i cap : ℕ) → ℕ
after i cap = if ltb i cap then i else arena_null

get_elem?-new_nodes :
    (rounds i cap k : ℕ)
    → k < rounds
    → i + rounds ≤ arena_null
    → get_elem? (new_nodes rounds i cap) k ≡ some (record zeroed { next = after (i + k + 1) cap })
unfolding new_nodes
get_elem?-new_nodes zero i cap k h b = absurd (omega arith)
get_elem?-new_nodes (suc rounds) i cap zero h b =
    let e : add_u32 i 1 ≡ i + 0 + 1 = omega arith in rw e
get_elem?-new_nodes (suc rounds) i cap (suc k) h b =
    let e : i + 1 + k + 1 ≡ i + suc k + 1 = omega arith in
    get_elem?-new_nodes rounds (i + 1) cap k (omega arith) (omega arith)
    ∙ ap (λ (j : ℕ). some (record zeroed { next = after j cap })) e

Free-new_nodes :
    (rounds i cap : ℕ)
    → i + rounds ≡ cap
    → cap ≤ arena_null
    → Free (new_nodes cap 0 cap) (after i cap) (upto rounds i)
Free-new_nodes zero i cap e b = nil (ground arith)
Free-new_nodes (suc rounds) i cap e b =
    let at = get_elem?-new_nodes cap 0 cap i (omega arith) (omega arith) in
    let here : after i cap ≡ i = ground arith in
    let step : after (0 + i + 1) cap ≡ after (i + 1) cap =
      ap (λ (j : ℕ). after j cap) (omega arith) in
    rw here (cons at (rw step (Free-new_nodes rounds (i + 1) cap (omega arith) b)))

-- A new arena has all of its slots free, in order.
pub new-IsArena : (cap : ℕ) → cap ≤ arena_null → IsArena (new cap) (upto cap 0)
unfolding new
new-IsArena cap b = record {
  pool = Free-new_nodes cap 0 cap (omega arith) b;
  size = length-new_nodes cap 0 cap;
  small = b;
  counted = omega (arith, length-upto cap 0);
}

-- What is done to the nodes of a level leaves the free list as it is.
pub IsArena-Keeps :
    {arena arena' : Arena} {free : List ℕ} {cs : Cells}
    → IsArena arena free
    → Keeps cs arena arena'
    → ((a : ℕ) → 0 < count a free → uses a cs ≡ 0)
    → IsArena arena' free
IsArena-Keeps is keeps apart = record {
  pool = rw keeps.free_head (Free-frame is.pool (λ a u. keeps.same a (apart a u)));
  size = omega (arith, is.size, keeps.size, keeps.capacity);
  small = omega (arith, is.small, keeps.capacity);
  counted = omega (arith, is.counted, keeps.count, keeps.capacity);
}
