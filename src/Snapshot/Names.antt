-- ===== src/Snapshot/Names.antt =====
-- The names and files of a directory of snapshots under `save`.
use mathlib.Core.Path.{subst}
use mathlib.Core.List.{Memᴰ}
use ferrox.Prelude.{
  Bool, ◌&&◌, ltb, replicate, suc, zero, ◌%◌, ◌+◌, ◌-◌, ◌/◌, filter, All, some, sym, Option, ◌∙◌,
  Bool-cases, ap, arith, false, inl, inr, length, length-append, refl, true, ℕ, ◌++◌, ◌==◌, ◌≡◌,
  List, [], ◌∷◌,
}
use ferrox.Snapshot.{Format, load_latest}
use ferrox.Snapshot.Files.{
  utf8_from, utf8_lead, utf8_step, digits, is_utf8, name_le, File, files, is_snapshot, same_name,
  ends_with, prefix, suffix, tmp_suffix, tmp_name, file_name, padded, remove_file, put_file, rename,
  content_of,
}

pub same_name-≡ : (a b : List ℕ) → same_name a b ≡ true → a ≡ b
same_name-≡ [] [] e = refl
same_name-≡ [] (d ∷ b) e = cc
same_name-≡ (c ∷ a) [] e = cc
same_name-≡ (c ∷ a) (d ∷ b) e =
    let rest = same_name-≡ a b in
    elim (Bool-cases (c == d)) [
      | inl same ↦
          let e' : same_name a b ≡ true = rw same at e in
          let c_is : c ≡ d = ground arith in cc (rest e')
      | inr other ↦ let e' : false ≡ true = rw other at e in cc
    ]

-- A name with `.tmp` behind it does not end in `.bin`.
tmp-not : (xs : List ℕ) → same_name suffix (xs ++ tmp_suffix) ≡ false
tmp-not [] = refl
tmp-not (x ∷ xs) = elim (Bool-cases (same_name suffix (x ∷ xs ++ tmp_suffix))) [
  | inl same ↦
      let n = ap (λ zs. length zs) (same_name-≡ suffix (x ∷ xs ++ tmp_suffix) same) in
      absurd (omega (arith, length-append xs tmp_suffix))
  | inr other ↦ other
]

ends_with-tmp : (xs : List ℕ) → ends_with suffix (xs ++ tmp_suffix) ≡ false
ends_with-tmp [] = refl
ends_with-tmp (x ∷ xs) = rw (tmp-not (x ∷ xs)) (ends_with-tmp xs)

and_false : (b : Bool) → (b && false) ≡ false
and_false true = refl
and_false false = refl

pub is_snapshot-tmp_name : (n : ℕ) → is_snapshot (tmp_name n) ≡ false
unfolding is_snapshot
is_snapshot-tmp_name n = rw (ends_with-tmp (file_name n)) (and_false (is_utf8 (tmp_name n)))

abbrev pub snapshots : List File → List File
snapshots fs = filter (λ g. is_snapshot g.name) fs

pub snapshots-remove_file :
    (name : List ℕ) (fs : List File)
    → is_snapshot name ≡ false
    → snapshots (remove_file name fs) ≡ snapshots fs
snapshots-remove_file name [] other = refl
snapshots-remove_file name (g ∷ fs) other =
    let rest = snapshots-remove_file name fs other in
    elim (Bool-cases (same_name g.name name)) [
      | inl same ↦
          let none_here : is_snapshot g.name ≡ false =
            ap is_snapshot (same_name-≡ g.name name same) ∙ other in
          rw (same, none_here) rest
      | inr stays ↦ elim (Bool-cases (is_snapshot g.name)) [
        | inl here ↦ rw (stays, here) (ap (λ gs. g ∷ gs) rest)
        | inr none_here ↦ rw (stays, none_here) rest
      ]
    ]

pub snapshots-put_file :
    (name : List ℕ) (content : Option (List ℕ)) (fs : List File)
    → is_snapshot name ≡ false
    → snapshots (put_file name content fs) ≡ snapshots fs
snapshots-put_file name content fs other = rw other (snapshots-remove_file name fs other)

-- `load_latest` sees the files with the name of a snapshot alone.
pub load_latest-snapshots :
    (f : Format) (fs gs : List File)
    → snapshots gs ≡ snapshots fs
    → load_latest f (files gs) ≡ load_latest f (files fs)
unfolding load_latest
load_latest-snapshots f fs gs same = rw same

ends_with-suffix : (xs : List ℕ) → ends_with suffix (xs ++ suffix) ≡ true
ends_with-suffix [] = refl
ends_with-suffix (x ∷ xs) = let rest = ends_with-suffix xs in ground arith

-- A name of bytes below 128 is UTF-8.
abbrev IsAscii : List ℕ → Type 0
IsAscii name = All (λ b. ltb b 128 ≡ true) name

IsAscii-append : (a b : List ℕ) → IsAscii a → IsAscii b → IsAscii (a ++ b)
IsAscii-append [] b h k = k
IsAscii-append (c ∷ a) b h k = (h.0, IsAscii-append a b h.1 k)

is_utf8-IsAscii : (name : List ℕ) → IsAscii name → is_utf8 name ≡ true
is_utf8-IsAscii [] h = refl
is_utf8-IsAscii (b ∷ name) h =
    rw (is_utf8, utf8_from, utf8_step, utf8_lead, h.0) (is_utf8-IsAscii name h.1)

zeros-IsAscii : (k : ℕ) → IsAscii (replicate k 48)
zeros-IsAscii zero = tt
zeros-IsAscii (suc k) = (refl, zeros-IsAscii k)

digits-IsAscii : (fuel n : ℕ) → IsAscii (digits fuel n)
digits-IsAscii zero n = tt
digits-IsAscii (suc fuel) n =
    let last : IsAscii ((48 + n % 10) ∷ []) = (ground arith, tt) in
    elim (Bool-cases (ltb n 10)) [
      | inl one ↦ rw one last
      | inr more ↦ rw more (
          IsAscii-append (digits fuel (n / 10)) ((48 + n % 10) ∷ []) (digits-IsAscii fuel (n / 10))
            last)
    ]

file_name-IsAscii : (n : ℕ) → IsAscii (file_name n)
file_name-IsAscii n =
    IsAscii-append prefix (padded n ++ suffix)
      (refl, (refl, (refl, (refl, (refl, (refl, (refl, (refl, (refl, tt)))))))))
      (IsAscii-append (padded n) suffix
        (IsAscii-append (replicate (10 - length (digits 20 n)) 48) (digits 20 n)
          (zeros-IsAscii (10 - length (digits 20 n))) (digits-IsAscii 20 n))
        (refl, (refl, (refl, (refl, tt)))))

pub is_snapshot-file_name : (n : ℕ) → is_snapshot (file_name n) ≡ true
unfolding is_snapshot
is_snapshot-file_name n =
    let utf8 = is_utf8-IsAscii (file_name n) (file_name-IsAscii n) in
    let ends = ends_with-suffix (prefix ++ padded n) in rw (utf8, ends)

same_name_refl : (a : List ℕ) → same_name a a ≡ true
same_name_refl [] = refl
same_name_refl (c ∷ a) = let rest = same_name_refl a in ground arith

pub name_le_antisymm :
    (a b : List ℕ) → name_le a b ≡ true → name_le b a ≡ true → same_name a b ≡ true
name_le_antisymm [] [] h k = refl
name_le_antisymm [] (d ∷ b) h k = cc
name_le_antisymm (c ∷ a) [] h k = cc
name_le_antisymm (c ∷ a) (d ∷ b) h k = let rest = name_le_antisymm a b in ground arith

pub All-Mem : (P : File → Type 0) {g : File} (fs : List File) → All P fs → Memᴰ g fs → P g
All-Mem P [] h m = elim m [ ]
All-Mem P (k ∷ fs) h (Memᴰ.head e) = subst P (sym e) h.0
All-Mem P (k ∷ fs) h (Memᴰ.tail m) = All-Mem P fs h.1 m

pub rename_found :
    (from to : List ℕ) (content : Option (List ℕ)) (fs : List File)
    → content_of from fs ≡ some content
    → rename from to fs ≡ put_file to content (remove_file from fs)
rename_found from to content fs e = rw (e, rename)

pub content_of-put_file :
    (name : List ℕ) (content : Option (List ℕ)) (fs : List File)
    → content_of name (put_file name content fs) ≡ some content
content_of-put_file name content fs = rw (same_name_refl name)
