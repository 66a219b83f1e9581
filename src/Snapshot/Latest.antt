-- ===== src/Snapshot/Latest.antt =====
-- `Snapshot::load_latest`: the good snapshot of the highest name.
use mathlib.Core.Path.{subst}
use mathlib.Core.List.{Memᴰ}
use ferrox.Prelude.{
  filter, Result, err, ok, reverse, true, arith, sym, All, Bool-cases, Option, Option-cases,
  Returns, bind, inl, inr, mono, none, refl, returns, some, ℕ, ℤ, ◌==◌, ◌≡◌, ◌⊎◌, List, [], ◌∷◌,
}
use ferrox.Order.{Order}
use ferrox.Snapshot.{
  SnapshotError, io, Snapshot, Format, compute_checksum, verify_checksum, load_from_file,
  load_verified, first_good, load_latest,
}
use ferrox.Snapshot.Files.{File, Dir, missing, unreadable, files, sort, is_snapshot}
use ferrox.Snapshot.Sorting.{
  IsBelow, IsDescending, All-mono, name_le_refl, tried-Perm, tried-IsDescending, All-Perm, Mem-Perm,
  All-filter, Mem-filter,
}

module _ (f : Format) where
  -- The file holds a snapshot, and its checksum is that of its fields.
  pub record IsGood (file : File) (s : Snapshot) : Type 0 where
    pub bytes : List ℕ
    pub content_is : file.content ≡ some bytes
    pub read_is : f.from_bytes bytes ≡ some s
    pub checks :
        compute_checksum f s.wal_record_count s.best_bid s.best_ask s.orders ≡ some s.checksum

  abbrev pub IsBad : File → Type 0
  IsBad file = (s : Snapshot) → ¬ IsGood file s

  -- The fields of a snapshot always have bytes.
  abbrev pub HasFields : Type 0
  HasFields =
      (n : ℕ) (bid ask : Option ℤ) (orders : List Order)
      → (bytes : List ℕ) × (f.fields n bid ask orders ≡ some bytes)

  -- What the loop may yield of files.
  abbrev pub Newest : List File → Option Snapshot → Type 0
  Newest fs none = All IsBad fs
  Newest fs (some s) =
      (file : File) × Memᴰ file fs × IsGood file s × All (λ g. IsBelow g file ⊎ IsBad g) fs

  abbrev IsTested : File → Option Snapshot → Type 0
  IsTested file none = IsBad file
  IsTested file (some s) = IsGood file s

  module _ (total : HasFields) where
    tested :
        (file : File) {o : Option Snapshot} {m : Option (Option Snapshot)}
        → m ≡ some o
        → IsTested file o
        → Returns (IsTested file) m
    tested file e is = subst (Returns (IsTested file)) (sym e) (returns is)

    load_verified-IsTested : (file : File) → Returns (IsTested file) (load_verified f file)
    unfolding load_verified load_from_file verify_checksum
    load_verified-IsTested file = elim (Option-cases file.content) [
      | inl unread ↦
          let run : load_verified f file ≡ some none = rw unread in
          tested file run λ s good. cc (good.content_is, unread)
      | inr (bytes, content) ↦ elim (Option-cases (f.from_bytes bytes)) [
        | inl broken ↦
            let run : load_verified f file ≡ some none =
              rw (content, load_verified, load_from_file, broken) in
            tested file run λ s good. cc (good.content_is, good.read_is, content, broken)
        | inr (s, is) ↦
            let (fields, made) = total s.wal_record_count s.best_bid s.best_ask s.orders in
            elim (Bool-cases (s.checksum == f.hash fields)) [
              | inl same ↦
                  let run : load_verified f file ≡ some (some s) =
                    rw (content, load_verified, load_from_file, is, made, same) in
                  let equal : f.hash fields ≡ s.checksum = ground arith in
                  tested file run (record {
                    bytes = bytes;
                    content_is = content;
                    read_is = is;
                    checks = rw (made, equal);
                  })
              | inr other ↦
                  let run : load_verified f file ≡ some none =
                    rw (content, load_verified, load_from_file, is, made, other) in
                  tested file run λ t good.
                    let one : t ≡ s = cc (good.content_is, good.read_is, content, is) in
                    let checks : compute_checksum f s.wal_record_count s.best_bid s.best_ask
                          s.orders
                        ≡ some s.checksum =
                      subst
                        (λ (t : Snapshot).
                          compute_checksum f t.wal_record_count t.best_bid t.best_ask t.orders
                          ≡ some t.checksum)
                        one good.checks in
                    let equal : some (f.hash fields) ≡ some s.checksum = rw made at checks in
                    let equal' : f.hash fields ≡ s.checksum = cc in absurd (ground arith)
            ]
      ]
    ]

    first_good-Newest : (fs : List File) → IsDescending fs → Returns (Newest fs) (first_good f fs)
    unfolding first_good
    first_good-Newest [] down = returns tt
    first_good-Newest (file ∷ fs) down =
        bind (load_verified-IsTested file) (λ o t. step o t (first_good-Newest fs down.1))
      where
        step :
            (o : Option Snapshot)
            → IsTested file o
            → Returns (Newest fs) (first_good f fs)
            → Returns
                (Newest (file ∷ fs))
                (elim o [ some s ↦ some (some s) | none ↦ first_good f fs ])
        step (some s) good rest = returns (
          file,
          Memᴰ.head refl,
          good,
          (inl (name_le_refl file.name), All-mono fs (λ g b. inl b) down.0),
        )
        step none bad rest = mono rest more
          where
            more : (o : Option Snapshot) → Newest fs o → Newest (file ∷ fs) o
            more none none_good = (bad, none_good)
            more (some s) (g, m, good, below) = (g, Memᴰ.tail m, good, (inr bad, below))

  -- What `load_latest` promises of a directory.
  abbrev pub IsLatest : Dir → Result SnapshotError (Option Snapshot) → Type 0
  IsLatest missing r = r ≡ ok none
  IsLatest (unreadable fs) r = r ≡ err io
  IsLatest (files fs) (err e) = ⊥
  IsLatest (files fs) (ok none) = All (λ g. is_snapshot g.name ≡ true → IsBad g) fs
  IsLatest (files fs) (ok (some s)) =
      (file : File) × Memᴰ file fs
      × (is_snapshot file.name ≡ true)
      × IsGood file s
      × All (λ g. is_snapshot g.name ≡ true → IsBelow g file ⊎ IsBad g) fs

  Newest-IsLatest :
      (fs : List File) (o : Option Snapshot)
      → Newest (reverse (sort (filter (λ file. is_snapshot file.name) fs))) o
      → IsLatest (files fs) (ok o)
  Newest-IsLatest fs none bad =
      All-filter IsBad (λ file. is_snapshot file.name) fs
        (All-Perm IsBad (tried-Perm (filter (λ file. is_snapshot file.name) fs)) bad)
  Newest-IsLatest fs (some s) (file, m, good, below) =
      let kept : List File = filter (λ g. is_snapshot g.name) fs in
      let (m', named) = Mem-filter (λ g. is_snapshot g.name) fs (Mem-Perm (tried-Perm kept) m) in
      (
        file,
        m',
        named,
        good,
        All-filter (λ g. IsBelow g file ⊎ IsBad g) (λ g. is_snapshot g.name) fs
            (All-Perm (λ g. IsBelow g file ⊎ IsBad g) (tried-Perm kept) below),
      )

  -- Where the fields of a snapshot always have bytes, `load_latest` does not panic. Of a directory
  -- that is not there it yields no snapshot, of one that cannot be listed the error. Else it yields a
  -- snapshot that some file with the name of a snapshot holds with the right checksum, and all such
  -- files of a higher name are bad; or nothing, and all of them are bad.
  pub load_latest-IsLatest :
      (total : HasFields) (dir : Dir) → Returns (IsLatest dir) (load_latest f dir)
  unfolding load_latest
  load_latest-IsLatest total missing = returns refl
  load_latest-IsLatest total (unreadable fs) = returns refl
  load_latest-IsLatest total (files fs) =
      let kept : List File = filter (λ g. is_snapshot g.name) fs in
      bind (first_good-Newest total (reverse (sort kept)) (tried-IsDescending kept))
        (λ o newest. returns (Newest-IsLatest fs o newest))
