-- ===== src/Psi/Registration.antt =====
-- Which files epoll_psi.c registers before its main loop.
pub mod Cells
use linux_system_monitoring.Base.{
  ℕ, zero, suc, ◌+◌, ◌*◌, ◌==◌, ◌≡◌, ◌≢◌, ◌≤◌, ◌<◌, refl, sym, ap, ◌∙◌, arith, ltb, lt→ltb,
  le→ltb_false, Bool, Bool-cases, inl, inr, true, false, ◌||◌, ◌&&◌, not, Option, none, some, List,
  [], ◌∷◌, ◌++◌, append-nil, append_assoc, if◌then◌else◌, ◌>>=◌, All, length, length-append, Bytes,
  codes,
}
use linux_system_monitoring.CString.{snprintf, str_eq}
use linux_system_monitoring.CyclicFileRead.Text.{strcat}
use linux_system_monitoring.CyclicFileRead.Lines.{strcat_fits}
use linux_system_monitoring.Psi.{resource}

-- A directory entry: its name, whether `stat` says that it is a directory (none for a failure), and
-- whether `malloc` succeeds for it.
pub record DirEntry : Type 0 where
  pub name : Bytes
  pub is_directory : Option Bool
  pub allowed : Bool

-- Not `.` or `..`, and a directory by what `stat` says.
unfoldable pub is_subdirectory : DirEntry → Bool
is_subdirectory e =
    not (str_eq e.name (codes ".") || str_eq e.name (codes ".."))
    && elim e.is_directory [ none ↦ false | some d ↦ d ]

-- `find_directories`: what is written into the first cells of `dirs`, none for NULL.
unfoldable pub find_directories : ℕ → Bytes → List DirEntry → List (Option Bytes)
find_directories dirs_max_size path [] = []
find_directories zero path (e ∷ es) = []
find_directories (suc n) path (e ∷ es) =
    let skip = find_directories (suc n) path es in
    let found = find_directories n path es in
    if not (is_subdirectory e)
    then skip
    else if e.allowed
    then some (snprintf 1024 (snprintf 1024 (path ++ (b'/' ∷ e.name)) ++ codes "/")) ∷ found
    else none ∷ []

-- `strstr(text, word) != NULL`
unfoldable pub begins_with : Bytes → Bytes → Bool
begins_with [] text = true
begins_with (c ∷ cs) [] = false
begins_with (c ∷ cs) (d ∷ ds) = if c == d then begins_with cs ds else false

unfoldable pub contains : Bytes → Bytes → Bool
contains word [] = begins_with word []
contains word (c ∷ cs) = begins_with word (c ∷ cs) || contains word cs

-- The path of a file, in 256 cells.
unfoldable pub pressure_path : Bytes → ℕ → Option Bytes
pressure_path dir_name n = do
  begun ← strcat 256 [] dir_name
  path ← strcat 256 begun (resource n)
  (if contains (codes "/sys/fs/cgroup") dir_name
      then strcat 256 path (codes ".pressure")
      else some path)

-- What was registered, or that the program exited.
pub data Registered : Type 0 where
  exited : Registered
  paths : List Bytes → Registered

-- `opens` says whether a file can be opened and added.
module _ (opens : Bytes → Bool) where
  -- The rounds of `register_files_in_dir` from number `i` on, `n` of them.
  unfoldable pub register_from : ℕ → ℕ → Bytes → List Bytes → Option Registered
  register_from i zero dir_name done = some (paths done)
  register_from i (suc n) dir_name done = do
    path ← pressure_path dir_name i
    (let later = register_from (i + 1) n dir_name (done ++ (path ∷ [])) in
        if opens path then later else some exited)

  unfoldable pub register_files_in_dir : Bytes → List Bytes → Option Registered
  register_files_in_dir dir_name done = register_from 0 3 dir_name done

  unfoldable pub and_then : (List Bytes → Option Registered) → Registered → Option Registered
  and_then later exited = some exited
  and_then later (paths done) = later done

  -- The loop over the cells of `dirs` in `main`, up to NULL. Behind what was found, the cells were never
  -- written.
  unfoldable pub register_dirs : ℕ → List (Option Bytes) → List Bytes → Option Registered
  register_dirs zero dirs done = some (paths done)
  register_dirs (suc n) [] done = none
  register_dirs (suc n) (none ∷ dirs) done = some (paths done)
  register_dirs (suc n) (some dir ∷ dirs) done = do
    r ← register_files_in_dir dir done
    and_then (register_dirs n dirs) r

  unfoldable pub register_all : List DirEntry → Option Registered
  register_all entries = do
    r ← register_files_in_dir (codes "/proc/pressure/") []
    and_then (register_dirs 9 (find_directories 9 (codes "/sys/fs/cgroup") entries)) r
