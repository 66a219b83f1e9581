-- ===== src/Snapshot/Files.antt =====
-- What src/snapshot.rs uses of a directory: the names and bytes of its files, in any order.
use ferrox.Prelude.{
  leb, filter, length, none, not, replicate, some, suc, zero, ◌%◌, ◌++◌, ◌+◌, ◌-◌, ◌/◌, Bool,
  Option, false, if◌then◌else◌, ltb, true, ℕ, ◌&&◌, ◌==◌, ◌||◌, List, [], ◌∷◌,
}

-- A name is its bytes; a file that cannot be read has no content.
pub record File : Type 0 where
  pub name : List ℕ
  pub content : Option (List ℕ)

-- The files of a directory that cannot be listed are there all the same.
pub data Dir : Type 0 where
  missing : Dir
  unreadable files : List File → Dir

abbrev pub starts_with : List ℕ → List ℕ → Bool
starts_with [] name = true
starts_with (c ∷ cs) [] = false
starts_with (c ∷ cs) (d ∷ name) = (c == d) && starts_with cs name

abbrev pub same_name : List ℕ → List ℕ → Bool
same_name [] [] = true
same_name [] (d ∷ b) = false
same_name (c ∷ a) [] = false
same_name (c ∷ a) (d ∷ b) = (c == d) && same_name a b

abbrev pub ends_with : List ℕ → List ℕ → Bool
ends_with suffix [] = same_name suffix []
ends_with suffix (d ∷ name) = same_name suffix (d ∷ name) || ends_with suffix name

-- `snapshot_`
abbrev pub prefix : List ℕ
prefix = 115 ∷ 110 ∷ 97 ∷ 112 ∷ 115 ∷ 104 ∷ 111 ∷ 116 ∷ 95 ∷ []

-- `.bin`
abbrev pub suffix : List ℕ
suffix = 46 ∷ 98 ∷ 105 ∷ 110 ∷ []

-- The bytes that a character still needs, and the bounds of the next one.
pub record Utf8 : Type 0 where
  pub need : ℕ
  pub low : ℕ
  pub high : ℕ

abbrev tails : (need : ℕ) → Utf8
tails need = record { need = need; low = 128; high = 191 }

abbrev between : (low high b : ℕ) → Bool
between low high b = leb low b && leb b high

-- The first byte of a character, by the table of well-formed sequences of UTF-8.
abbrev pub utf8_lead : ℕ → Option Utf8
utf8_lead b =
    if ltb b 128
    then some (tails 0)
    else if between 194 223 b
    then some (tails 1)
    else if b == 224
    then some (record { need = 2; low = 160; high = 191 })
    else if b == 237
    then some (record { need = 2; low = 128; high = 159 })
    else if between 225 239 b
    then some (tails 2)
    else if b == 240
    then some (record { need = 3; low = 144; high = 191 })
    else if between 241 243 b
    then some (tails 3)
    else if b == 244
    then some (record { need = 3; low = 128; high = 143 })
    else none

abbrev pub utf8_step : Utf8 → ℕ → Option Utf8
utf8_step u b =
    if u.need == 0
    then utf8_lead b
    else (if between u.low u.high b then some (tails (u.need - 1)) else none)

abbrev pub utf8_from : Utf8 → List ℕ → Bool
utf8_from u [] = u.need == 0
utf8_from u (b ∷ name) = elim (utf8_step u b) [ none ↦ false | some u' ↦ utf8_from u' name ]

-- `to_str` yields a name that is UTF-8.
abbrev pub is_utf8 : List ℕ → Bool
is_utf8 name = utf8_from (tails 0) name

unfoldable pub is_snapshot : List ℕ → Bool
is_snapshot name = is_utf8 name && (starts_with prefix name && ends_with suffix name)

-- The lexicographic order of the names.
abbrev pub name_le : List ℕ → List ℕ → Bool
name_le [] b = true
name_le (c ∷ a) [] = false
name_le (c ∷ a) (d ∷ b) = ltb c d || ((c == d) && name_le a b)

-- `sort`, by the names
abbrev pub insert_file : File → List File → List File
insert_file f [] = f ∷ []
insert_file f (g ∷ fs) = if name_le f.name g.name then f ∷ g ∷ fs else g ∷ insert_file f fs

abbrev pub sort : List File → List File
sort [] = []
sort (f ∷ fs) = insert_file f (sort fs)

-- A write makes the file if there is none, and a rename takes the place of the file of that name.
abbrev pub remove_file : (name : List ℕ) → List File → List File
remove_file name fs = filter (λ g. not (same_name g.name name)) fs

abbrev pub put_file : (name : List ℕ) → Option (List ℕ) → List File → List File
put_file name content fs = record { name = name; content = content } ∷ remove_file name fs

abbrev pub content_of : (name : List ℕ) → List File → Option (Option (List ℕ))
content_of name [] = none
content_of name (g ∷ fs) = if same_name g.name name then some g.content else content_of name fs

abbrev pub rename : (from to : List ℕ) → List File → List File
rename from to fs = elim (content_of from fs) [
  | none ↦ fs
  | some content ↦ put_file to content (remove_file from fs)
]

-- The decimal digits of a number below 10 ^ 20, such as a `u64`.
abbrev pub digits : (fuel n : ℕ) → List ℕ
digits zero n = []
digits (suc fuel) n = (if ltb n 10 then [] else digits fuel (n / 10)) ++ (48 + n % 10) ∷ []

-- `{:010}`
abbrev pub padded : ℕ → List ℕ
padded n = replicate (10 - length (digits 20 n)) 48 ++ digits 20 n

-- `format!("snapshot_{:010}.bin", wal_record_count)`, and that with `.tmp` behind it
abbrev pub file_name : (wal_record_count : ℕ) → List ℕ
file_name wal_record_count = prefix ++ (padded wal_record_count ++ suffix)

abbrev pub tmp_suffix : List ℕ
tmp_suffix = 46 ∷ 116 ∷ 109 ∷ 112 ∷ []

abbrev pub tmp_name : (wal_record_count : ℕ) → List ℕ
tmp_name wal_record_count = file_name wal_record_count ++ tmp_suffix
