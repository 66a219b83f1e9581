-- ===== src/Wal/Slices.antt =====
-- Slices of a buffer as parts of a list.
use ferrox.Prelude.{
  Bool-cases, append-nil, append_assoc, inl, inr, length-replicate, replicate, set, sym, take, ◌-◌,
  ap, arith, drop, leb, length, length-append, refl, some, suc, true, zero, ◌++◌, ◌+◌, ◌∙◌, ◌∷◌,
  ◌≡◌, ◌≤◌, ℕ, List, [],
}
use ferrox.Protocol.Bytes.{slice, put, byte}
use ferrox.Wal.{get_slice, set_slice, set_len}

pub slice-cons : (n k x : ℕ) (ys : List ℕ) → slice n (suc k) (x ∷ ys) ≡ slice n k ys
unfolding slice
slice-cons zero k x ys = refl
slice-cons (suc n) k x ys = ap (λ zs. byte ys k ∷ zs) (slice-cons n (suc k) x ys)

slice-past : (n : ℕ) (xs ys : List ℕ) → slice n (length xs) (xs ++ ys) ≡ slice n 0 ys
slice-past n [] ys = refl
slice-past n (x ∷ xs) ys = slice-cons n (length xs) x (xs ++ ys) ∙ slice-past n xs ys

slice-whole : (bs ys : List ℕ) → slice (length bs) 0 (bs ++ ys) ≡ bs
unfolding slice
slice-whole [] ys = refl
slice-whole (b ∷ bs) ys =
    ap (λ zs. b ∷ zs) (slice-cons (length bs) 0 b (bs ++ ys) ∙ slice-whole bs ys)

-- A part of a list is read as it stands.
pub get_slice-part :
    (buf xs bs ys : List ℕ) (offset n : ℕ)
    → buf ≡ xs ++ (bs ++ ys)
    → offset ≡ length xs
    → n ≡ length bs
    → get_slice buf offset n ≡ some bs
unfolding get_slice
get_slice-part buf xs bs ys offset n is at size =
    let room : leb (length xs + length bs) (length (xs ++ (bs ++ ys))) ≡ true =
      ground (arith, length-append xs (bs ++ ys), length-append bs ys) in
    rw (is, at, size, room) (ap some (slice-past (length bs) xs (bs ++ ys) ∙ slice-whole bs ys))

pub length-slice : (n offset : ℕ) (buf : List ℕ) → length (slice n offset buf) ≡ n
unfolding slice
length-slice zero offset buf = refl
length-slice (suc n) offset buf = ap suc (length-slice n (suc offset) buf)

slice-drop_front : (n : ℕ) (buf : List ℕ) → n ≤ length buf → buf ≡ slice n 0 buf ++ drop n buf
unfolding slice
slice-drop_front zero buf h = refl
slice-drop_front (suc n) [] h = absurd (omega arith)
slice-drop_front (suc n) (b ∷ buf) h =
    ap (λ ys. b ∷ ys)
      (slice-drop_front n buf (omega arith)
        ∙ ap (λ ys. ys ++ drop n buf) (sym (slice-cons n 0 b buf)))

slice-drop :
    (n offset m : ℕ) (buf : List ℕ)
    → m ≡ offset + n
    → m ≤ length buf
    → drop offset buf ≡ slice n offset buf ++ drop m buf
slice-drop n zero m buf e h =
    let same : m ≡ n = omega arith in rw same (slice-drop_front n buf (omega arith))
slice-drop n (suc offset) m [] e h = absurd (omega arith)
slice-drop n (suc offset) zero (b ∷ buf) e h = absurd (omega arith)
slice-drop n (suc offset) (suc m) (b ∷ buf) e h =
    slice-drop n offset m buf (omega arith) (omega arith)
    ∙ ap (λ ys. ys ++ drop m buf) (sym (slice-cons n offset b buf))

-- What was read stands at its place.
pub get_slice-split :
    (buf : List ℕ) (offset n m : ℕ) {bs : List ℕ}
    → get_slice buf offset n ≡ some bs
    → m ≡ offset + n
    → (drop offset buf ≡ bs ++ drop m buf) × (length bs ≡ n) × (m ≤ length buf)
unfolding get_slice
get_slice-split buf offset n m {bs} e mid = elim (Bool-cases (leb (offset + n) (length buf))) [
  | inl room ↦
      let same : slice n offset buf ≡ bs = ground arith in
      (
        slice-drop n offset m buf mid (ground arith) ∙ ap (λ ys. ys ++ drop m buf) same,
        ap (λ ys. length ys) (sym same) ∙ length-slice n offset buf,
        ground arith,
      )
  | inr short ↦ absurd (ground arith)
]

-- A read within the bounds is made.
pub get_slice_within :
    (buf : List ℕ) (offset n : ℕ)
    → offset + n ≤ length buf
    → (bs : List ℕ) × (get_slice buf offset n ≡ some bs)
unfolding get_slice
get_slice_within buf offset n h = (slice n offset buf, ground arith)

pub replicate-add : (n m k : ℕ) (a : ℕ) → k ≡ n + m → replicate k a ≡ replicate n a ++ replicate m a
replicate-add zero m k a e = ap (λ (j : ℕ). replicate j a) (omega arith)
replicate-add (suc n) m zero a e = absurd (omega arith)
replicate-add (suc n) m (suc k) a e = ap (λ ys. a ∷ ys) (replicate-add n m k a (omega arith))

pub put-cons :
    (k : ℕ) (bs : List ℕ) (x : ℕ) (ys : List ℕ) → put (suc k) bs (x ∷ ys) ≡ x ∷ put k bs ys
unfolding put
put-cons k [] x ys = refl
put-cons k (b ∷ bs) x ys = put-cons (suc k) bs x (set ys k b)

pub put-past : (bs xs ys : List ℕ) → put (length xs) bs (xs ++ ys) ≡ xs ++ put 0 bs ys
put-past bs [] ys = refl
put-past bs (x ∷ xs) ys =
    put-cons (length xs) bs x (xs ++ ys) ∙ ap (λ zs. x ∷ zs) (put-past bs xs ys)

put-zeros :
    (bs : List ℕ) (k m : ℕ) → k ≡ length bs + m → put 0 bs (replicate k 0) ≡ bs ++ replicate m 0
unfolding put
put-zeros [] k m e = ap (λ (j : ℕ). replicate j 0) (omega arith)
put-zeros (b ∷ bs) zero m e = absurd (omega arith)
put-zeros (b ∷ bs) (suc k) m e =
    put-cons 0 bs b (replicate k 0) ∙ ap (λ ys. b ∷ ys) (put-zeros bs k m (omega arith))

-- A write where the zeros begin.
pub set_slice-zeros :
    (xs bs : List ℕ) (k m offset : ℕ)
    → offset ≡ length xs
    → k ≡ length bs + m
    → set_slice (xs ++ replicate k 0) offset bs ≡ some ((xs ++ bs) ++ replicate m 0)
unfolding set_slice
set_slice-zeros xs bs k m offset at size =
    let room : leb (length xs + length bs) (length (xs ++ replicate k 0)) ≡ true =
      ground (arith, length-append xs (replicate k 0), length-replicate {A = ℕ} k 0) in
    rw (at, room)
      (ap some (
        put-past bs xs (replicate k 0)
        ∙ ap (λ ys. xs ++ ys) (put-zeros bs k m size)
        ∙ sym (append_assoc xs bs (replicate m 0))))

take-whole : (n : ℕ) (xs : List ℕ) → length xs ≤ n → take n xs ≡ xs
take-whole zero [] h = refl
take-whole zero (x ∷ xs) h = absurd (omega arith)
take-whole (suc n) [] h = refl
take-whole (suc n) (x ∷ xs) h = ap (λ ys. x ∷ ys) (take-whole n xs (omega arith))

take-length : (n : ℕ) (xs ys : List ℕ) → n ≡ length xs → take n (xs ++ ys) ≡ xs
take-length zero [] ys e = refl
take-length zero (x ∷ xs) ys e = absurd (omega arith)
take-length (suc n) [] ys e = absurd (omega arith)
take-length (suc n) (x ∷ xs) ys e = ap (λ zs. x ∷ zs) (take-length n xs ys (omega arith))

-- A file that grows has zeros at its end, and one that is cut keeps its front.
pub set_len-grow :
    (n : ℕ) (xs : List ℕ) → length xs ≤ n → set_len n xs ≡ xs ++ replicate (n - length xs) 0
unfolding set_len
set_len-grow n xs h = ap (λ ys. ys ++ replicate (n - length xs) 0) (take-whole n xs h)

pub set_len-cut : (n : ℕ) (xs ys : List ℕ) → n ≡ length xs → set_len n (xs ++ ys) ≡ xs
unfolding set_len
set_len-cut n xs ys e =
    let none_left : n - length (xs ++ ys) ≡ 0 = omega (arith, length-append xs ys) in
    rw none_left (append-nil (take n (xs ++ ys)) ∙ take-length n xs ys e)
