-- ===== src/Arena/Level.antt =====
-- What a price level stands for, and what its operations leave alone.
use ferrox.Prelude.{
  ◌∙◌, get_elem?-lt, false, refl, ℕ, ◌+◌, ◌%◌, ◌≤◌, ◌<◌, ◌≡◌, some, [], ◌∷◌, ◌++◌, arith, ◌==◌,
  length, get_elem?,
}
use ferrox.Order.{Order}
use ferrox.Arena.{Arena, PriceLevel, Storage, arena_null}
use ferrox.Arena.Seg.{
  Seg-split, Cells, uses, node, Seg, nil, cons, uses-last, uses-lt_length, Seg-frame,
}

-- The sum of the quantities of the cells.
abbrev pub total : Cells → ℕ
total [] = 0
total ((_, o) ∷ cs) = o.quantity + total cs

pub total-append : (xs ys : Cells) → total (xs ++ ys) ≡ total xs + total ys
total-append [] ys = omega arith
total-append (x ∷ xs) ys = omega (arith, total-append xs ys)

-- The level is a doubly linked list through the cells, with their number and, modulo 2 ^ 64, the
-- sum of their quantities.
pub record IsLevel (st : Storage) (level : PriceLevel) (cs : Cells) : Type 0 where
  pub chain : Seg st level.tail arena_null arena_null level.head cs
  pub counted : level.count ≡ length cs
  pub sums : level.qty ≡ total cs % 18_446_744_073_709_551_616

-- Nodes outside the cells are as they were.
abbrev pub SameOutside : Cells → Storage → Storage → Type 0
SameOutside cs st st' = (a : ℕ) → uses a cs ≡ 0 → get_elem? st' a ≡ get_elem? st a

-- An operation on the cells changes no other node, and nothing but nodes.
pub record Keeps (cs : Cells) (arena arena' : Arena) : Type 0 where
  pub size : length arena'.storage ≡ length arena.storage
  pub free_head : arena'.free_head ≡ arena.free_head
  pub count : arena'.count ≡ arena.count
  pub capacity : arena'.capacity ≡ arena.capacity
  pub same : SameOutside cs arena.storage arena'.storage

-- A level is not disturbed by what happens outside its cells.
pub IsLevel-frame :
    {st st' : Storage} {level : PriceLevel} {cs : Cells}
    → IsLevel st level cs
    → ((a : ℕ) → 0 < uses a cs → get_elem? st' a ≡ get_elem? st a)
    → IsLevel st' level cs
IsLevel-frame is same = record {
  chain = Seg-frame is.chain same;
  counted = is.counted;
  sums = is.sums;
}

pub Seg-nil : {st : Storage} {l n p h : ℕ} → Seg st l n p h [] → (l ≡ p) × (h ≡ n)
Seg-nil nil = (refl, refl)

pub Seg-cons :
    {st : Storage} {l n p h i : ℕ} {o : Order} {cs : Cells}
    → Seg st l n p h ((i, o) ∷ cs)
    → (h ≡ i) × (m : ℕ) × (get_elem? st i ≡ some (node o p m)) × Seg st l n i m cs
Seg-cons (cons {m} e s) = (refl, m, e, s)

-- The index at the end of a segment is no null index.
pub last-ne_null :
    {st : Storage} {l n p h : ℕ} {c : ℕ × Order} {cs : Cells}
    → Seg st l n p h (c ∷ cs)
    → length st ≤ arena_null
    → (l == arena_null) ≡ false
last-ne_null {l} s small = ground (arith, uses-lt_length l s (uses-last s))

-- The index at the start of a segment is no null index.
pub head-ne_null :
    {st : Storage} {l n p h : ℕ} {c : ℕ × Order} {cs : Cells}
    → Seg st l n p h (c ∷ cs)
    → length st ≤ arena_null
    → (h == arena_null) ≡ false
head-ne_null {st} (cons {i} e s) small = ground (arith, get_elem?-lt st i e)

-- The node of a cell of a level.
pub cell_at :
    {st : Storage} {level : PriceLevel} (xs : Cells) (i : ℕ) (order : Order) (ys : Cells)
    → IsLevel st level (xs ++ (i, order) ∷ ys)
    → (q : ℕ) × (n : ℕ) × (get_elem? st i ≡ some (node order q n))
cell_at xs i order ys is =
    let (l, h, before, behind) = Seg-split xs is.chain in
    let (first, n, at, rest) = Seg-cons behind in (l, n, at)

pub Keeps-weaken :
    {cs ds : Cells} {arena arena' : Arena}
    → ((a : ℕ) → uses a ds ≡ 0 → uses a cs ≡ 0)
    → Keeps cs arena arena'
    → Keeps ds arena arena'
Keeps-weaken wider keeps = record {
  size = keeps.size;
  free_head = keeps.free_head;
  count = keeps.count;
  capacity = keeps.capacity;
  same = λ a out. keeps.same a (wider a out);
}

pub Keeps-trans :
    {cs : Cells} {arena arena' arena'' : Arena}
    → Keeps cs arena arena'
    → Keeps cs arena' arena''
    → Keeps cs arena arena''
Keeps-trans k k' = record {
  size = k'.size ∙ k.size;
  free_head = k'.free_head ∙ k.free_head;
  count = k'.count ∙ k.count;
  capacity = k'.capacity ∙ k.capacity;
  same = λ a out. k'.same a out ∙ k.same a out;
}
