-- ===== src/Snapshot/Sorting.antt =====
-- The order of the files that `load_latest` tries: by name, the highest first.
use mathlib.Core.Path.{subst}
use mathlib.Core.List.{reverse-cons}
use mathlib.Core.List.{Memᴰ, Permᴰ}
use mathlib.Core.List.Memᴰ
use mathlib.Core.List.Permᴰ
use ferrox.Prelude.{
  filter, All, Bool, Bool-cases, ap, arith, false, inl, inr, refl, reverse, sym, true, ℕ, ◌++◌, ◌∙◌,
  ◌≡◌, List, [], ◌∷◌,
}
use ferrox.Snapshot.Files.{File, name_le, sort, insert_file}

pub All-Perm : (P : File → Type 0) {xs ys : List File} → Permᴰ xs ys → All P xs → All P ys
All-Perm P Permᴰ.nil h = h
All-Perm P (Permᴰ.cons e d) h = (subst P e h.0, All-Perm P d h.1)
All-Perm P (Permᴰ.swap e1 e2) h = (subst P e2 h.1.0, (subst P e1 h.0, h.1.1))
All-Perm P (Permᴰ.trans d1 d2) h = All-Perm P d2 (All-Perm P d1 h)

pub Mem-Perm : {f : File} {xs ys : List File} → Permᴰ xs ys → Memᴰ f xs → Memᴰ f ys
Mem-Perm Permᴰ.nil m = m
Mem-Perm (Permᴰ.cons e d) (Memᴰ.head e') = Memᴰ.head (e' ∙ e)
Mem-Perm (Permᴰ.cons e d) (Memᴰ.tail m) = Memᴰ.tail (Mem-Perm d m)
Mem-Perm (Permᴰ.swap e1 e2) (Memᴰ.head e') = Memᴰ.tail (Memᴰ.head (e' ∙ e1))
Mem-Perm (Permᴰ.swap e1 e2) (Memᴰ.tail (Memᴰ.head e')) = Memᴰ.head (e' ∙ e2)
Mem-Perm (Permᴰ.swap e1 e2) (Memᴰ.tail (Memᴰ.tail m)) = Memᴰ.tail (Memᴰ.tail m)
Mem-Perm (Permᴰ.trans d1 d2) m = Mem-Perm d2 (Mem-Perm d1 m)

pub name_le-total : (a b : List ℕ) → name_le a b ≡ false → name_le b a ≡ true
name_le-total [] b e = cc
name_le-total (c ∷ a) [] e = refl
name_le-total (c ∷ a) (d ∷ b) e = let again = name_le-total a b in ground arith

pub name_le_refl : (a : List ℕ) → name_le a a ≡ true
name_le_refl [] = refl
name_le_refl (c ∷ a) = let again = name_le_refl a in ground arith

pub name_le_trans : (a b c : List ℕ) → name_le a b ≡ true → name_le b c ≡ true → name_le a c ≡ true
name_le_trans [] b c h k = refl
name_le_trans (x ∷ a) [] c h k = cc
name_le_trans (x ∷ a) (y ∷ b) [] h k = cc
name_le_trans (x ∷ a) (y ∷ b) (z ∷ c) h k = let again = name_le_trans a b c in ground arith

abbrev pub IsBelow : File → File → Type 0
IsBelow f g = name_le f.name g.name ≡ true

abbrev IsAscending : List File → Type 0
IsAscending [] = Unit
IsAscending (f ∷ fs) = All (λ g. IsBelow f g) fs × IsAscending fs

abbrev pub IsDescending : List File → Type 0
IsDescending [] = Unit
IsDescending (f ∷ fs) = All (λ g. IsBelow g f) fs × IsDescending fs

pub All-mono :
    {P Q : File → Type 0} (fs : List File) → ((f : File) → P f → Q f) → All P fs → All Q fs
All-mono [] weaken h = tt
All-mono (f ∷ fs) weaken h = (weaken f h.0, All-mono fs weaken h.1)

insert_file-Perm : (f : File) (fs : List File) → Permᴰ (insert_file f fs) (f ∷ fs)
insert_file-Perm f [] = Permᴰ.refl (f ∷ [])
insert_file-Perm f (g ∷ fs) = elim (Bool-cases (name_le f.name g.name)) [
  | inl first ↦ rw first (Permᴰ.refl (f ∷ g ∷ fs))
  | inr later ↦
      rw later (Permᴰ.trans (Permᴰ.cons refl (insert_file-Perm f fs)) (Permᴰ.swap refl refl))
]

sort-Perm : (fs : List File) → Permᴰ (sort fs) fs
sort-Perm [] = Permᴰ.nil
sort-Perm (f ∷ fs) = Permᴰ.trans (insert_file-Perm f (sort fs)) (Permᴰ.cons refl (sort-Perm fs))

insert_file-IsAscending :
    (f : File) (fs : List File) → IsAscending fs → IsAscending (insert_file f fs)
insert_file-IsAscending f [] h = (tt, tt)
insert_file-IsAscending f (g ∷ fs) h = elim (Bool-cases (name_le f.name g.name)) [
  | inl first ↦
      rw first
        ((first, All-mono fs (λ k below. name_le_trans f.name g.name k.name first below) h.0), h)
  | inr later ↦ rw later (
    All-Perm _ (Permᴰ.symm (insert_file-Perm f fs)) (name_le-total f.name g.name later, h.0),
    insert_file-IsAscending f fs h.1,
  )
]

sort-IsAscending : (fs : List File) → IsAscending (sort fs)
sort-IsAscending [] = tt
sort-IsAscending (f ∷ fs) = insert_file-IsAscending f (sort fs) (sort-IsAscending fs)

All-last : (P : File → Type 0) (fs : List File) (f : File) → All P fs → P f → All P (fs ++ f ∷ [])
All-last P [] f h p = (p, tt)
All-last P (g ∷ fs) f h p = (h.0, All-last P fs f h.1 p)

IsDescending-last :
    (fs : List File) (f : File)
    → IsDescending fs
    → All (λ g. IsBelow f g) fs
    → IsDescending (fs ++ f ∷ [])
IsDescending-last [] f h low = (tt, tt)
IsDescending-last (g ∷ fs) f h low = (All-last _ fs f h.0 low.0, IsDescending-last fs f h.1 low.1)

reverse-IsDescending : (fs : List File) → IsAscending fs → IsDescending (reverse fs)
reverse-IsDescending [] h = tt
reverse-IsDescending (f ∷ fs) h = subst IsDescending (sym (reverse-cons f fs)) (
    IsDescending-last (reverse fs) f (reverse-IsDescending fs h.1)
      (All-Perm _ (Permᴰ.symm (Permᴰ.reverse fs)) h.0))

-- The files that `load_latest` tries are those with the name of a snapshot, the highest name first.
pub tried-Perm : (fs : List File) → Permᴰ (reverse (sort fs)) fs
tried-Perm fs = Permᴰ.trans (Permᴰ.reverse (sort fs)) (sort-Perm fs)

pub tried-IsDescending : (fs : List File) → IsDescending (reverse (sort fs))
tried-IsDescending fs = reverse-IsDescending (sort fs) (sort-IsAscending fs)

pub Mem-filter :
    {f : File} (p : File → Bool) (fs : List File) → Memᴰ f (filter p fs) → Memᴰ f fs × (p f ≡ true)
Mem-filter {f} p (g ∷ fs) m = elim (Bool-cases (p g)) [
  | inl stays ↦
      let m' : Memᴰ f (g ∷ filter p fs) = rw stays at m in
      elim (Memᴰ.cases_cons m') [
        | inl e ↦ (Memᴰ.head e, ap p e ∙ stays)
        | inr rest ↦ let r = Mem-filter p fs rest in (Memᴰ.tail r.0, r.1)
      ]
  | inr goes ↦
      let m' : Memᴰ f (filter p fs) = rw goes at m in
      let r = Mem-filter p fs m' in (Memᴰ.tail r.0, r.1)
]
Mem-filter p [] m = absurd (Memᴰ.not-nil m)

pub All-filter :
    (P : File → Type 0) (p : File → Bool) (fs : List File)
    → All P (filter p fs)
    → All (λ f. p f ≡ true → P f) fs
All-filter P p [] h = tt
All-filter P p (f ∷ fs) h = elim (Bool-cases (p f)) [
  | inl stays ↦
      let h' : All P (f ∷ filter p fs) = rw stays at h in ((λ _. h'.0), All-filter P p fs h'.1)
  | inr goes ↦
      let h' : All P (filter p fs) = rw goes at h in
      ((λ e. absurd (ground arith)), All-filter P p fs h')
]
