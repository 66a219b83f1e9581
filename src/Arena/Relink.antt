-- ===== src/Arena/Relink.antt =====
-- What a write of one `next` or `prev` index does to a segment.
use ferrox.Prelude.{
  [], ◌++◌, ℕ, ◌<◌, ◌≡◌, ◌≢◌, some, ◌∷◌, arith, length, get_elem?, set, length-set, get_elem?-lt,
  get_elem?-set_self, get_elem?-set_ne, Returns, returns,
}
use ferrox.Order.{Order}
use ferrox.Arena.{OrderNode, Storage, set_next, set_prev}
use ferrox.Arena.Seg.{Cells, uses, Uniq, node, Seg, nil, cons, Seg-frame, uses-last}

-- `st'` is `st` with the node at `i` replaced.
pub record Wrote (st : Storage) (i : ℕ) (new : OrderNode) (st' : Storage) : Type 0 where
  pub here : get_elem? st' i ≡ some new
  pub others : (a : ℕ) → a ≢ i → get_elem? st' a ≡ get_elem? st a
  pub size : length st' ≡ length st

pub set-Wrote :
    (st : Storage) (i : ℕ) (new : OrderNode) → i < length st → Wrote st i new (set st i new)
set-Wrote st i new h = record {
  here = get_elem?-set_self st i new h;
  others = λ a ne. get_elem?-set_ne st i a new (λ e. ne (ground arith));
  size = length-set st i new;
}

pub set_next-Wrote :
    {st : Storage} {i : ℕ} {nd : OrderNode} (v : ℕ)
    → get_elem? st i ≡ some nd
    → Returns (Wrote st i (record nd { next = v })) (set_next i v st)
unfolding set_next
set_next-Wrote {st} {i} {nd} v e =
    rw e (returns (set-Wrote st i (record nd { next = v }) (get_elem?-lt st i e)))

pub set_prev-Wrote :
    {st : Storage} {i : ℕ} {nd : OrderNode} (v : ℕ)
    → get_elem? st i ≡ some nd
    → Returns (Wrote st i (record nd { prev = v })) (set_prev i v st)
unfolding set_prev
set_prev-Wrote {st} {i} {nd} v e =
    rw e (returns (set-Wrote st i (record nd { prev = v }) (get_elem?-lt st i e)))

-- A write beside a segment leaves it alone.
pub Wrote-frame :
    {st st' : Storage} {i l n p h : ℕ} {new : OrderNode} {cs : Cells}
    → Wrote st i new st'
    → uses i cs ≡ 0
    → Seg st l n p h cs
    → Seg st' l n p h cs
Wrote-frame {i} w free s = Seg-frame s (λ a u. w.others a (λ e. ground arith))

-- The node at the end of a segment.
pub last_node :
    {st : Storage} {l n p h : ℕ} {c : ℕ × Order} {cs : Cells}
    → Seg st l n p h (c ∷ cs)
    → (o : Order) × (q : ℕ) × (get_elem? st l ≡ some (node o q n))
last_node (cons {p} {o} e nil) = (o, p, e)
last_node (cons e (cons e' s)) = last_node (cons e' s)

-- Writing `next` at the end of a segment changes where it leads.
pub relink_last :
    {st st' : Storage} {l n p h : ℕ} {c : ℕ × Order} {cs : Cells} {nd : OrderNode} (v : ℕ)
    → Seg st l n p h (c ∷ cs)
    → Uniq (c ∷ cs)
    → get_elem? st l ≡ some nd
    → Wrote st l (record nd { next = v }) st'
    → Seg st' l v p h (c ∷ cs)
relink_last v (cons e nil) u at w = cons (ground (arith, w.here)) nil
relink_last {l} v (cons {i} e (cons e' s)) u at w =
    let inside = uses-last (cons e' s) in
    let apart : i ≢ l = λ eq. ground (arith, u i) in
    cons (ground (arith, w.others i apart))
      (relink_last v (cons e' s) (λ a. omega (arith, u a)) at w)

-- Writing `prev` at the start of a segment changes where it comes from.
pub relink_first :
    {st st' : Storage} {l n p h : ℕ} {c : ℕ × Order} {cs : Cells} {nd : OrderNode} (q : ℕ)
    → Seg st l n p h (c ∷ cs)
    → Uniq (c ∷ cs)
    → get_elem? st h ≡ some nd
    → Wrote st h (record nd { prev = q }) st'
    → Seg st' l n q h (c ∷ cs)
relink_first q (cons {i} {cs} e s) u at w =
    cons (ground (arith, w.here)) (Wrote-frame w (ground (arith, u i)) s)

-- The same for a segment whose last cell is written out.
pub last_node-append :
    {st : Storage} {l n p h : ℕ} (xs : Cells) (c : ℕ × Order)
    → Seg st l n p h (xs ++ c ∷ [])
    → (o : Order) × (q : ℕ) × (get_elem? st l ≡ some (node o q n))
last_node-append [] c s = last_node s
last_node-append (x ∷ xs) c s = last_node s

pub relink_last-append :
    {st st' : Storage} {l n p h : ℕ} (xs : Cells) (c : ℕ × Order) {nd : OrderNode} (v : ℕ)
    → Seg st l n p h (xs ++ c ∷ [])
    → Uniq (xs ++ c ∷ [])
    → get_elem? st l ≡ some nd
    → Wrote st l (record nd { next = v }) st'
    → Seg st' l v p h (xs ++ c ∷ [])
relink_last-append [] c v s u at w = relink_last v s u at w
relink_last-append (x ∷ xs) c v s u at w = relink_last v s u at w
