-- ===== src/Arena/Seg.antt =====
-- Segments of the intrusive lists: which nodes a chain of `next` and `prev` indices leads through.
use ferrox.Prelude.{
  ℕ, ◌+◌, ◌≤◌, ◌<◌, ◌≡◌, some, List, [], ◌∷◌, ◌++◌, arith, ◌==◌, if◌then◌else◌, length, get_elem?,
  get_elem?-lt,
}
use ferrox.Order.{Order}
use ferrox.Arena.{OrderNode, Storage}

-- What a list stands for: the index and the order of each node, in order.
abbrev pub Cells : Type 0
Cells = List (ℕ × Order)

-- How often an index stands in the cells.
abbrev pub uses : ℕ → Cells → ℕ
uses a [] = 0
uses a ((i, _) ∷ cs) = (if i == a then 1 else 0) + uses a cs

abbrev pub Uniq : Cells → Type 0
Uniq cs = (a : ℕ) → uses a cs ≤ 1

pub uses-append : (a : ℕ) (xs ys : Cells) → uses a (xs ++ ys) ≡ uses a xs + uses a ys
uses-append a [] ys = omega arith
uses-append a (x ∷ xs) ys = omega (arith, uses-append a xs ys)

-- The node of an order between two neighbours.
abbrev pub node : Order → (prev next : ℕ) → OrderNode
node o p n = record {
  id = o.id;
  trader_id = o.trader_id;
  price = o.price;
  quantity = o.quantity;
  timestamp = o.timestamp;
  prev = p;
  next = n;
  side = o.side;
}

-- From `head`, whose `prev` is the first index, through the cells to `last`, whose `next` is `next`.
pub data Seg (st : Storage) (last next : ℕ) : (prev head : ℕ) → Cells → Type 0 where
  nil : Seg st last next last next []
  cons :
      {p i m : ℕ} {o : Order} {cs : Cells}
      → get_elem? st i ≡ some (node o p m)
      → Seg st last next i m cs
      → Seg st last next p i ((i, o) ∷ cs)

pub Seg-frame :
    {st st' : Storage} {l n p h : ℕ} {cs : Cells}
    → Seg st l n p h cs
    → ((a : ℕ) → 0 < uses a cs → get_elem? st' a ≡ get_elem? st a)
    → Seg st' l n p h cs
Seg-frame nil same = nil
Seg-frame (cons {i} e s) same =
    cons (ground (arith, same i)) (Seg-frame s (λ a u. same a (omega arith)))

pub Seg-append :
    {st : Storage} {l n l' n' p h : ℕ} {xs ys : Cells}
    → Seg st l n p h xs
    → Seg st l' n' l n ys
    → Seg st l' n' p h (xs ++ ys)
Seg-append nil t = t
Seg-append (cons e s) t = cons e (Seg-append s t)

-- A segment splits between any two of its cells.
pub Seg-split :
    {st : Storage} {l n p h : ℕ} (xs : Cells) {ys : Cells}
    → Seg st l n p h (xs ++ ys)
    → (l' : ℕ) × (n' : ℕ) × Seg st l' n' p h xs × Seg st l n l' n' ys
Seg-split {p} {h} [] s = (p, h, nil, s)
Seg-split (x ∷ xs) (cons e s) = let (l', n', s', t) = Seg-split xs s in (l', n', cons e s', t)

-- The end of a segment that is not empty is one of its nodes.
pub uses-last :
    {st : Storage} {l n p h : ℕ} {c : ℕ × Order} {cs : Cells}
    → Seg st l n p h (c ∷ cs)
    → 0 < uses l (c ∷ cs)
uses-last (cons e nil) = ground arith
uses-last (cons e (cons e' s)) = let h = uses-last (cons e' s) in omega arith

pub uses-lt_length :
    {st : Storage} {l n p h : ℕ} {cs : Cells} (a : ℕ)
    → Seg st l n p h cs
    → 0 < uses a cs
    → a < length st
uses-lt_length a nil u = absurd (omega arith)
uses-lt_length {st} a (cons {i} e s) u = ground (arith, get_elem?-lt st i e, uses-lt_length a s)
