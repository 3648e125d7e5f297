-- ===== src/Psi/Registration/Cells.antt =====
-- The registration of the cgroups, by how many directories there are.
use linux_system_monitoring.Base.{
  ◌&&◌, ◌||◌, false, ℕ, zero, suc, ◌≡◌, ◌≤◌, refl, sym, ap, ◌∙◌, arith, ltb, lt→ltb, le→ltb_false,
  Bool, Bool-cases, inl, inr, true, not, Option, none, some, List, [], ◌∷◌, ◌++◌, append-nil,
  append_assoc, if◌then◌else◌, All, length, length-append, take, length-take, take_of_le, Bytes,
  codes,
}
use linux_system_monitoring.CString.{snprintf_fits}
use linux_system_monitoring.CyclicFileRead.Text.{strcat}
use linux_system_monitoring.CString.{str_eq}
use linux_system_monitoring.CyclicFileRead.Lines.{strcat_fits}
use linux_system_monitoring.Psi.{resource}
use linux_system_monitoring.Psi.Registration.{
  DirEntry, is_subdirectory, find_directories, begins_with, contains, pressure_path, paths,
  register_from, register_files_in_dir, and_then, register_dirs, register_all,
}

-- A directory by what `stat` says, and none of the two that every directory has.
abbrev pub is_child : DirEntry → Bool
is_child e =
    not (str_eq e.name (codes ".") || str_eq e.name (codes ".."))
    && elim e.is_directory [ none ↦ false | some d ↦ d ]

-- The names of the directories, without the two that every directory has.
abbrev pub subdirectories : List DirEntry → List Bytes
subdirectories [] = []
subdirectories (e ∷ es) = if not (is_child e) then subdirectories es else e.name ∷ subdirectories es

abbrev pub cgroup : Bytes → Bytes
cgroup name = (codes "/sys/fs/cgroup" ++ (b'/' ∷ name)) ++ codes "/"

abbrev pub cgroups : List Bytes → List (Option Bytes)
cgroups [] = []
cgroups (n ∷ ns) = some (cgroup n) ∷ cgroups ns

-- Memory is there for it, and its name is short.
pub record IsPlain (e : DirEntry) : Type 0 where
  pub allowed : e.allowed ≡ true
  pub short : length e.name ≤ 200

find_directories_lem :
    (es : List DirEntry) (n : ℕ)
    → All IsPlain es
    → find_directories n (codes "/sys/fs/cgroup") es ≡ cgroups (take n (subdirectories es))
unfolding find_directories is_subdirectory
find_directories_lem [] zero ok = refl
find_directories_lem [] (suc n) ok = refl
find_directories_lem (e ∷ es) zero ok = none_left (subdirectories (e ∷ es))
  where
    none_left : (ns : List Bytes) → [] ≡ cgroups (take 0 ns)
    none_left [] = refl
    none_left (m ∷ ns) = refl
find_directories_lem (e ∷ es) (suc n) (ok, oks) = elim (Bool-cases (not (is_child e))) [
  | inl other ↦ rw other (find_directories_lem es (suc n) oks)
  | inr sub ↦
      let path = codes "/sys/fs/cgroup" ++ (b'/' ∷ e.name) in
      rw
        (
          sub,
          ok.allowed,
          snprintf_fits 1024 path (omega (arith, ok.short)),
          snprintf_fits 1024 (path ++ codes "/")
              (omega (arith, ok.short, length-append e.name (codes "/"))),
        )
        (ap (◌∷◌ (some (cgroup e.name))) (find_directories_lem es n oks))
]

-- The three files of a directory.
abbrev pub files_in : Bytes → Bytes → List Bytes
files_in dir suffix =
    ((dir ++ codes "cpu") ++ suffix)
    ∷ ((dir ++ codes "io") ++ suffix)
    ∷ ((dir ++ codes "memory") ++ suffix)
    ∷ []

-- The files of directories, one after the other.
abbrev pub files_of : List Bytes → List Bytes
files_of [] = []
files_of (n ∷ ns) = files_in (cgroup n) (codes ".pressure") ++ files_of ns

pressure_path_lem :
    (name : Bytes) (n : ℕ)
    → length name ≤ 200
    → length (resource n) ≤ 6
    → pressure_path (cgroup name) n ≡ some ((cgroup name ++ resource n) ++ codes ".pressure")
unfolding pressure_path contains begins_with
pressure_path_lem name n short small =
    rw
      (
        strcat_fits 256 [] (cgroup name) (omega (arith, size)),
        strcat_fits 256 (cgroup name) (resource n) (omega (arith, size)),
      )
      (strcat_fits 256 (cgroup name ++ resource n) (codes ".pressure")
        (omega (arith, size, length-append (cgroup name) (resource n))))
  where
    size : length (cgroup name) ≤ 216
    size = omega (arith, short, length-append name (codes "/"))

module _ (opens : Bytes → Bool) (all : (path : Bytes) → opens path ≡ true) where
  register_cgroup :
      (name : Bytes) (done : List Bytes)
      → length name ≤ 200
      → register_files_in_dir opens (cgroup name) done
        ≡ some (paths (done ++ files_in (cgroup name) (codes ".pressure")))
  unfolding register_files_in_dir register_from
  register_cgroup name done short =
      rw
        (
          pressure_path_lem name 0 short (omega arith),
          pressure_path_lem name 1 short (omega arith),
          pressure_path_lem name 2 short (omega arith),
          all,
          all,
          all,
        )
        (ap (λ l. some (paths l))
          (append_assoc (done ++ (file 0 ∷ [])) (file 1 ∷ []) (file 2 ∷ [])
            ∙ append_assoc done (file 0 ∷ []) (file 1 ∷ file 2 ∷ [])))
    where
      file : ℕ → Bytes
      file n = (cgroup name ++ resource n) ++ codes ".pressure"

  register_proc :
      register_files_in_dir opens (codes "/proc/pressure/") []
      ≡ some (paths (files_in (codes "/proc/pressure/") []))
  unfolding register_files_in_dir register_from pressure_path contains begins_with strcat
  register_proc = rw (all, all, all)

  -- With a directory for every cell, all are registered; a cell without one was never written.
  register_dirs_lem :
      (cells : ℕ) (names done : List Bytes)
      → All (λ n. length n ≤ 200) names
      → register_dirs opens cells (cgroups names) done ≡ (
          if ltb (length names) cells
          then none
          else some (paths (done ++ files_of (take cells names))))
  unfolding register_dirs and_then
  register_dirs_lem zero names done short =
      rw (le→ltb_false (length names) 0 (omega arith))
        (ap (λ l. some (paths l)) (sym (append-nil done)))
  register_dirs_lem (suc n) [] done short = rw (lt→ltb 0 (suc n) (omega arith))
  register_dirs_lem (suc n) (m ∷ names) done (short, shorts) =
      let shift : ltb (length (m ∷ names)) (suc n) ≡ ltb (length names) n = ground arith in
      rw (register_cgroup m done short, shift)
        (register_dirs_lem n names (done ++ files_in (cgroup m) (codes ".pressure")) shorts
          ∙ ap (λ l. if ltb (length names) n then none else some (paths l))
              (append_assoc done (files_in (cgroup m) (codes ".pressure"))
                (files_of (take n names))))

  subdirectories_short :
      (es : List DirEntry) (n : ℕ)
      → All IsPlain es
      → All (λ m. length m ≤ 200) (take n (subdirectories es))
  subdirectories_short [] zero ok = tt
  subdirectories_short [] (suc n) ok = tt
  subdirectories_short (e ∷ es) n (ok, oks) = elim (Bool-cases (not (is_child e))) [
    | inl other ↦ rw other (subdirectories_short es n oks)
    | inr sub ↦ rw sub (within n (λ k. subdirectories_short es k oks))
  ]
    where
      within :
          (n : ℕ)
          → ((k : ℕ) → All (λ m. length m ≤ 200) (take k (subdirectories es)))
          → All (λ m. length m ≤ 200) (take n (e.name ∷ subdirectories es))
      within zero later = tt
      within (suc k) later = (ok.short, later k)

  -- When every file can be opened, memory is there, and the names in /sys/fs/cgroup have at
  -- most 200 characters, the registration in front of the main loop reads a cell of `dirs` that
  -- was never written if there are fewer than nine directories; otherwise it registers the
  -- three files of /proc/pressure and those of the first nine directories, in order.
  pub register_all_lem :
      (es : List DirEntry)
      → All IsPlain es
      → register_all opens es ≡ (
          if ltb (length (subdirectories es)) 9
          then none
          else some (
              paths
                (files_in (codes "/proc/pressure/") [] ++ files_of (take 9 (subdirectories es)))))
  unfolding register_all and_then
  register_all_lem es ok =
      rw (register_proc, find_directories_lem es 9 ok)
        (register_dirs_lem 9 (take 9 (subdirectories es)) (files_in (codes "/proc/pressure/") [])
            (subdirectories_short es 9 ok)
          ∙ taken (subdirectories es))
    where
      taken :
          (names : List Bytes)
          → (if ltb (length (take 9 names)) 9
              then none
              else some (
                  paths
                    (files_in (codes "/proc/pressure/") [] ++ files_of (take 9 (take 9 names)))))
            ≡ (if ltb (length names) 9
                then none
                else some
                    (paths (files_in (codes "/proc/pressure/") [] ++ files_of (take 9 names))))
      taken names =
          let size : ltb (length (take 9 names)) 9 ≡ ltb (length names) 9 =
            ground (arith, length-take 9 names) in
          rw (size, take_of_le 9 (take 9 names) (omega (arith, length-take 9 names)))
