-- ===== src/Snapshot/Save.antt =====
-- `Snapshot::save`: what is loaded after it, and after one that fails.
use mathlib.Core.Path.{subst}
use mathlib.Core.Bool.{true≢false}
use mathlib.Core.List.Memᴰ
use ferrox.Prelude.{
  Option-cases, All, Result, err, none, not, ok, some, sym, value, Option, ◌∙◌, Bool-cases, ap,
  arith, inl, inr, refl, true, ℕ, ◌≡◌, List, [], ◌∷◌,
}
use ferrox.Snapshot.{
  first_good, SnapshotError, io, serialize, Snapshot, Format, create_dir, write_file, rename_file,
  FileSystem, save_to, save, load_latest, compute_checksum,
}
use ferrox.Snapshot.Files.{
  name_le, File, Dir, missing, unreadable, files, is_snapshot, same_name, tmp_name, file_name,
  remove_file, put_file, rename,
}
use ferrox.Snapshot.Latest.{IsGood, IsLatest, load_latest-IsLatest, HasFields}
use ferrox.Snapshot.Sorting.{Mem-filter}
use ferrox.Snapshot.Names.{
  snapshots-remove_file, snapshots-put_file, load_latest-snapshots, is_snapshot-tmp_name,
  is_snapshot-file_name, name_le_antisymm, All-Mem, rename_found, content_of-put_file,
}

module _ (f : Format) (s : Snapshot) where
  abbrev IsNewest : List File → Type 0
  IsNewest fs =
      All (λ g. is_snapshot g.name ≡ true → name_le g.name (file_name s.wal_record_count) ≡ true) fs

  -- No file of the directory has a higher name of a snapshot.
  abbrev pub IsNewestOf : Dir → Type 0
  IsNewestOf missing = Unit
  IsNewestOf (unreadable fs) = IsNewest fs
  IsNewestOf (files fs) = IsNewest fs

  -- The new file is the one that is loaded.
  load_latest-put_file :
      (total : HasFields f) (bytes : List ℕ) (gs : List File)
      → f.from_bytes bytes ≡ some s
      → compute_checksum f s.wal_record_count s.best_bid s.best_ask s.orders ≡ some s.checksum
      → IsNewest gs
      → load_latest f (files (put_file (file_name s.wal_record_count) (some bytes) gs))
        ≡ some (ok (some s))
  load_latest-put_file total bytes gs read checks newest =
      let final : List ℕ = file_name s.wal_record_count in
      let file : File = record { name = final; content = some bytes } in
      let good : IsGood f file s = record {
        bytes = bytes;
        content_is = refl;
        read_is = read;
        checks = checks;
      } in
      let (r, run, latest) =
        value (load_latest-IsLatest f total (files (put_file final (some bytes) gs))) in
      run ∙ ap some (only r latest good)
    where
      final : List ℕ
      final = file_name s.wal_record_count

      file : File
      file = record { name = final; content = some bytes }

      only :
          (r : Result SnapshotError (Option Snapshot))
          → IsLatest f (files (put_file final (some bytes) gs)) r
          → IsGood f file s
          → r ≡ ok (some s)
      only (err e) is good = absurd is
      only (ok none) is good = absurd (is.0 (is_snapshot-file_name s.wal_record_count) s good)
      only (ok (some t)) (g, m, named, good_t, above) good = elim (Memᴰ.cases_cons m) [
        | inl same ↦
            let content : g.content ≡ some bytes = ap (λ (k : File). k.content) same in
            let one : t ≡ s = cc (content, good_t.content_is, good_t.read_is, read) in
            ap (λ t. ok (some t)) one
        | inr older ↦
            let (m', other) = Mem-filter (λ k. not (same_name k.name final)) gs older in
            elim (above.0 (is_snapshot-file_name s.wal_record_count)) [
              | inl low ↦
                  let twin = name_le_antisymm g.name final (All-Mem _ gs newest m' named) low in
                  absurd (ground arith)
              | inr bad ↦ absurd (bad s good)
            ]
      ]

  only_saved :
      (fs : List File) (bytes : List ℕ)
      → rename
          (tmp_name s.wal_record_count)
          (file_name s.wal_record_count)
          (put_file (tmp_name s.wal_record_count) (some bytes) fs)
        ≡ put_file (file_name s.wal_record_count) (some bytes) (
            remove_file
              (tmp_name s.wal_record_count)
              (put_file (tmp_name s.wal_record_count) (some bytes) fs))
  only_saved fs bytes =
      rename_found (tmp_name s.wal_record_count) (file_name s.wal_record_count) (some bytes)
        (put_file (tmp_name s.wal_record_count) (some bytes) fs)
        (content_of-put_file (tmp_name s.wal_record_count) (some bytes) fs)

  All-remove_file :
      (P : File → Type 0) (name : List ℕ) (fs : List File) → All P fs → All P (remove_file name fs)
  All-remove_file P name [] h = tt
  All-remove_file P name (g ∷ fs) h =
      let rest = All-remove_file P name fs h.1 in
      elim (Bool-cases (same_name g.name name)) [
        | inl same ↦ rw same rest
        | inr other ↦ rw other (h.0, rest)
      ]

  -- The directory when it can be listed.
  abbrev pub listed : Dir → Dir
  listed missing = missing
  listed (unreadable fs) = files fs
  listed (files fs) = files fs

  -- What `save` promises of a directory, with what is loaded from the new one.
  abbrev pub IsSavedAs :
      (Option (Result SnapshotError (Option Snapshot)) → Type 0)
      → Dir
      → Result SnapshotError (List ℕ) × Dir
      → Type 0
  IsSavedAs Loaded dir (ok name, dir') =
      (name ≡ file_name s.wal_record_count)
      × Loaded (load_latest f (listed dir'))
      × (listed dir ≡ dir → listed dir' ≡ dir')
  IsSavedAs Loaded dir (err e, dir') =
      (load_latest f dir' ≡ load_latest f dir)
      × (load_latest f (listed dir') ≡ load_latest f (listed dir))

  abbrev in_files : Result SnapshotError (List ℕ) × List File → Result SnapshotError (List ℕ) × Dir
  in_files (r, fs) = (r, files fs)

  abbrev in_unreadable :
      Result SnapshotError (List ℕ) × List File → Result SnapshotError (List ℕ) × Dir
  in_unreadable (r, fs) = (r, unreadable fs)

  -- The files besides the saved one.
  abbrev others : List File → List ℕ → List File
  others fs bytes =
      remove_file (tmp_name s.wal_record_count)
        (put_file (tmp_name s.wal_record_count) (some bytes) fs)

  module _ (Loaded : Option (Result SnapshotError (Option Snapshot)) → Type 0) where
    same_dir :
        (fs : List File) {m r : Result SnapshotError (List ℕ) × List File}
        → m ≡ r
        → IsSavedAs Loaded (files fs) (in_files r)
        → IsSavedAs Loaded (files fs) (in_files m)
    same_dir fs e is = subst (λ r. IsSavedAs Loaded (files fs) (in_files r)) (sym e) is

    same_loaded :
        (fs gs : List File)
        → load_latest f (files gs) ≡ load_latest f (files fs)
        → IsSavedAs Loaded (files fs) (err io, files gs)
    same_loaded fs gs same = (same, same)

    -- What is loaded when the saved file is there.
    abbrev AllLoaded : List File → Type 0
    AllLoaded fs =
        (bytes : List ℕ)
        → f.to_bytes s ≡ some bytes
        → Loaded (
            load_latest f
              (files (put_file (file_name s.wal_record_count) (some bytes) (others fs bytes))))

    save_to-IsSavedAs :
        (sys : FileSystem) (fs : List File)
        → AllLoaded fs
        → IsSavedAs Loaded (files fs) (in_files (save_to f sys s fs))
    save_to-IsSavedAs sys fs loads = elim (Option-cases (f.to_bytes s)) [
      | inl no_bytes ↦
          let run : save_to f sys s fs ≡ (err serialize, fs) = rw (no_bytes, save_to) in
          same_dir fs run (refl, refl)
      | inr (bytes, made) ↦ elim (Bool-cases (sys.grants write_file)) [
        | inl written ↦ elim (Bool-cases (sys.grants rename_file)) [
          | inl renamed ↦
              let run : save_to f sys s fs
                  ≡ (ok final, put_file final (some bytes) (others fs bytes)) =
                rw (made, written, renamed, save_to)
                  (ap (λ gs. (ok final, gs)) (only_saved fs bytes)) in
              same_dir fs run (refl, loads bytes made, λ e. refl)
          | inr stuck ↦
              let run : save_to f sys s fs ≡ (err io, put_file tmp (some bytes) fs) =
                rw (made, written, stuck, save_to) in
              same_dir fs run (hides (some bytes))
        ]
        | inr torn ↦ elim (Option-cases (sys.left bytes)) [
          | inl nothing ↦
              let run : save_to f sys s fs ≡ (err io, remove_file tmp fs) =
                rw (made, torn, nothing, save_to) in
              same_dir fs run (
                same_loaded fs (remove_file tmp fs) (
                  load_latest-snapshots f fs (remove_file tmp fs)
                    (snapshots-remove_file tmp fs (is_snapshot-tmp_name s.wal_record_count))))
          | inr (content, part) ↦
              let run : save_to f sys s fs ≡ (err io, put_file tmp content fs) =
                rw (made, torn, part, save_to) in
              same_dir fs run (hides content)
        ]
      ]
    ]
      where
        final : List ℕ
        final = file_name s.wal_record_count

        tmp : List ℕ
        tmp = tmp_name s.wal_record_count

        hides :
            (content : Option (List ℕ))
            → IsSavedAs Loaded (files fs) (err io, files (put_file tmp content fs))
        hides content = same_loaded fs (put_file tmp content fs) (
            load_latest-snapshots f fs (put_file tmp content fs)
              (snapshots-put_file tmp content fs (is_snapshot-tmp_name s.wal_record_count)))

    from_nothing :
        (r : Result SnapshotError (List ℕ) × Dir)
        → IsSavedAs Loaded (files []) r
        → IsSavedAs Loaded missing r
    unfolding load_latest first_good
    from_nothing (ok name, dir) (name_is, loads, keeps) = (name_is, loads, λ e. keeps refl)
    from_nothing (err e, dir) is = is

    unlisted :
        (fs : List File) (r : Result SnapshotError (List ℕ) × List File)
        → IsSavedAs Loaded (files fs) (in_files r)
        → IsSavedAs Loaded (unreadable fs) (in_unreadable r)
    unfolding load_latest
    unlisted fs (ok name, gs) (name_is, loads, keeps) = (name_is, loads, λ e. cc)
    unlisted fs (err e, gs) (same, again) = (refl, again)

    -- For the files of each kind of directory.
    abbrev AllLoadedOf : Dir → Type 0
    AllLoadedOf missing = AllLoaded []
    AllLoadedOf (unreadable fs) = AllLoaded fs
    AllLoadedOf (files fs) = AllLoaded fs

    save-IsSavedAs :
        (sys : FileSystem) (dir : Dir) → AllLoadedOf dir → IsSavedAs Loaded dir (save f sys s dir)
    unfolding save
    save-IsSavedAs sys missing loads = elim (Bool-cases (sys.grants create_dir)) [
      | inl made ↦
          rw made (from_nothing (in_files (save_to f sys s [])) (save_to-IsSavedAs sys [] loads))
      | inr refused ↦ rw refused (refl, refl)
    ]
    save-IsSavedAs sys (files fs) loads = elim (Bool-cases (sys.grants create_dir)) [
      | inl made ↦ rw made (save_to-IsSavedAs sys fs loads)
      | inr refused ↦ rw refused (refl, refl)
    ]
    save-IsSavedAs sys (unreadable fs) loads = elim (Bool-cases (sys.grants create_dir)) [
      | inl made ↦ rw made (unlisted fs (save_to f sys s fs) (save_to-IsSavedAs sys fs loads))
      | inr refused ↦ rw refused (refl, refl)
    ]

  -- Whatever a snapshot, a directory and the binary format are, and whichever call of `save` fails,
  -- with any bytes written until then: what `load_latest` yields of the directory stays the same.
  pub save_failed :
      (sys : FileSystem) (dir dir' : Dir) (e : SnapshotError)
      → save f sys s dir ≡ (err e, dir')
      → load_latest f dir' ≡ load_latest f dir
  save_failed sys dir dir' e run =
      (subst (λ r. IsSavedAs (λ _. Unit) dir r) run
        (save-IsSavedAs (λ _. Unit) sys dir (any dir))).0
    where
      any : (dir : Dir) → AllLoadedOf (λ _. Unit) dir
      any missing = λ bytes made. tt
      any (unreadable fs) = λ bytes made. tt
      any (files fs) = λ bytes made. tt

  -- What `save` promises: the path of the snapshot, which is loaded once the directory can be listed.
  abbrev pub IsSaved : Dir → Result SnapshotError (List ℕ) × Dir → Type 0
  IsSaved dir r = IsSavedAs (λ loaded. loaded ≡ some (ok (some s))) dir r

  -- Saving a snapshot with the right checksum, which its bytes give back, to a directory with no
  -- higher snapshot, where the fields of a snapshot always have bytes: if `save` succeeds, at the path
  -- of its record count, this snapshot is the one that `load_latest` yields, at once if the directory
  -- could be listed before, else when it can be. If a call fails, what `load_latest` yields stays the
  -- same.
  pub save-IsSaved :
      (total : HasFields f)
      (round : (bytes : List ℕ) → f.to_bytes s ≡ some bytes → f.from_bytes bytes ≡ some s)
      (checks : compute_checksum f s.wal_record_count s.best_bid s.best_ask s.orders
        ≡ some s.checksum)
      (sys : FileSystem) (dir : Dir)
      → IsNewestOf dir
      → IsSaved dir (save f sys s dir)
  save-IsSaved total round checks sys dir newest =
      save-IsSavedAs (λ loaded. loaded ≡ some (ok (some s))) sys dir (loads dir newest)
    where
      newest_others : (fs : List File) (bytes : List ℕ) → IsNewest fs → IsNewest (others fs bytes)
      newest_others fs bytes newest =
          All-remove_file _ (tmp_name s.wal_record_count)
            (put_file (tmp_name s.wal_record_count) (some bytes) fs)
            (
              (λ e. absurd (true≢false (sym e ∙ is_snapshot-tmp_name s.wal_record_count))),
              All-remove_file _ (tmp_name s.wal_record_count) fs newest,
            )

      loads_from :
          (fs : List File) → IsNewest fs → AllLoaded (λ loaded. loaded ≡ some (ok (some s))) fs
      loads_from fs newest bytes made =
          load_latest-put_file total bytes (others fs bytes) (round bytes made) checks
            (newest_others fs bytes newest)

      loads : (dir : Dir) → IsNewestOf dir → AllLoadedOf (λ loaded. loaded ≡ some (ok (some s))) dir
      loads missing newest = loads_from [] tt
      loads (unreadable fs) newest = loads_from fs newest
      loads (files fs) newest = loads_from fs newest
