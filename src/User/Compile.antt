-- ===== src/User/Compile.antt =====
-- The functions of kernel/user.c that use the file system: the built-in programs, the compiler, and
-- the loading from files. The addresses of the static arrays are parameters.
use pine_os.Base.{
  ℕ, ◌-◌, Bool, true, false, Option, none, some, List, [], ◌∷◌, ◌++◌, ltb, ◌==◌, if◌then◌else◌, ℤ,
  pos, zero, minus_one, length, take, drop,
}
use pine_os.Base.Bind.{◌>>=◌}
use pine_os.CString.{Text, strlen, strchr, strrchr, strstr}
use pine_os.Machine.{State, Run, ok, fault, out_of_fuel, Cmd, codes}
use pine_os.Ram.{put_bytes, text_at}
use pine_os.Filesystem.Paths.{find_file}
use pine_os.Filesystem.Files.{write_file, read_file}
use pine_os.User.{Program, Users, user_load_program}

-- The file system with the allocator, the memory and the console, and the variables of
-- kernel/user.c.
pub record Session : Type 0 where
  pub fs : State
  pub programs : List Program
  pub program_count : ℕ
  pub user_stack : ℕ
  pub user_heap : ℕ

abbrev pub users_of : Session → Users
users_of s = record {
  programs = s.programs;
  program_count = s.program_count;
  user_stack = s.user_stack;
  user_heap = s.user_heap;
  heap = s.fs.heap;
  ram = s.fs.ram;
  console = s.fs.console;
}

abbrev pub with_users : Users → Session → Session
with_users u s = record {
  fs = record s.fs { heap = u.heap; ram = u.ram; console = u.console };
  programs = u.programs;
  program_count = u.program_count;
  user_stack = u.user_stack;
  user_heap = u.user_heap;
}

abbrev pub tell : Text → Session → Session
tell t s = record s { fs = record s.fs { console = s.fs.console ++ t } }

-- `none` is a fault, or a loop of the file system that does not end.
abbrev pub taken : {A : Type 0} → Session → Run A → Option (A × Session)
taken s (ok a t) = some (a, record s { fs = t })
taken s fault = none
taken s out_of_fuel = none

abbrev pub on_files : {A : Type 0} → Cmd A → Session → Option (A × Session)
on_files c s = taken s (c s.fs)

abbrev pub back : Session → Option (ℤ × Users) → Option (ℤ × Session)
back s none = none
back s (some (r, u)) = some (r, with_users u s)

abbrev pub on_programs : (Users → Option (ℤ × Users)) → Session → Option (ℤ × Session)
on_programs f s = back s (f (users_of s))

-- The code that the compiler writes for a source, with or without a call of `puts`.
abbrev pub binary : Bool → List ℕ
binary calls_puts =
    0x55
    ∷ 0x89
    ∷ 0xE5
    ∷ ((if calls_puts
          then 0x68 ∷ 0x00 ∷ 0x00 ∷ 0x00 ∷ 0x00 ∷ 0xB8 ∷ 0x01 ∷ 0x00 ∷ 0x00 ∷ 0x00 ∷ 0x83 ∷ 0xC4
            ∷ 0x04 ∷ []
          else [])
        ++ (0x5D ∷ 0xC3 ∷ []))

abbrev pub is_found : {A : Type 0} → Option A → Bool
is_found none = false
is_found (some a) = true

abbrev pub code_of : Text → List ℕ
code_of source = binary (is_found (strstr source (codes "puts(")))

abbrev pub system_path : Text → Text
system_path name = codes "/system/" ++ name

-- From behind the last '/' to the next '.', at most 31 bytes.
abbrev pub behind_slash : Text → Option Text → Text
behind_slash filename none = filename
behind_slash filename (some t) = drop 1 t

abbrev pub up_to_dot : Text → Option Text → ℕ
up_to_dot start none = strlen start
up_to_dot start (some t) = strlen start - strlen t

unfoldable pub program_name : Text → Text
program_name filename =
    let start = behind_slash filename (strrchr filename b'/') in
    let len = up_to_dot start (strchr start b'.') in take (if ltb 31 len then 31 else len) start

abbrev pub report_load : ℤ × Session → ℤ × Session
report_load (pos zero, s) = (pos 0, tell (codes "Program compiled and loaded successfully\n") s)
report_load (r, s) = (r, tell (codes "Failed to load compiled program\n") s)

-- A path of 64 bytes or more does not fit its array.
abbrev pub fits_path : Text → Bool
fits_path name = ltb (strlen name) 56

module _ (fuel : ℕ) where
  -- `filesystem_write_file(path, (const char*)p)`, which takes the bytes up to a NUL.
  unfoldable pub store_at : Text → ℕ → Session → Option (ℤ × Session)
  store_at path p s = do t ← text_at fuel s.fs.ram p; on_files (write_file path t) s

  unfoldable pub user_load_binary_from_system : Text → Session → Option (ℤ × Session)
  user_load_binary_from_system name s0 =
      if fits_path name
      then (do
        (p, s) ← on_files (read_file (system_path name)) s0
        if p == 0
            then some (
              minus_one,
              tell (codes "Error: Binary not found: " ++ (system_path name ++ codes "\n")) s,
            )
            else (do
              (file, s1) ← on_files (find_file (system_path name)) s
              load_file name p file s1))
      else none
    where
      load_file : Text → ℕ → Option ℕ → Session → Option (ℤ × Session)
      load_file name p none s = some (minus_one, tell (codes "Error: Could not get file info\n") s)
      load_file name p (some i) s =
          on_programs (user_load_program (some name) p (s.fs.entries i).size)
            (tell (codes "Loading binary from " ++ (system_path name ++ codes "\n")) s)

module _ (fuel compiled : ℕ) where
  unfoldable pub user_compile_and_load : Text → Text → Session → Option (ℤ × Session)
  user_compile_and_load name source s0 =
      let s1 = tell (codes "Compiling C program: " ++ (name ++ codes "\n")) s0 in
      let s2 = record s1 {
        fs = record s1.fs { ram = put_bytes s1.fs.ram compiled (code_of source) };
      } in
      if fits_path name
      then (do
        (r, s3) ← store_at fuel (system_path name) compiled s2
        (v, s4) ←
            on_programs (user_load_program (some name) compiled (length (code_of source)))
              (tell (codes "Binary stored in " ++ (system_path name ++ codes "\n")) s3)
        some (report_load (v, s4)))
      else none

  unfoldable pub user_load_from_file : Text → Session → Option (ℤ × Session)
  user_load_from_file filename s0 = do
    (p, s) ← on_files (read_file filename) s0
    if p == 0
        then some
            (minus_one, tell (codes "Error: Could not read file: " ++ (filename ++ codes "\n")) s)
        else (do
          source ← text_at fuel s.fs.ram p
          user_compile_and_load (program_name filename) source (
              tell
                (codes "Compiling "
                  ++ (filename ++ (codes " -> " ++ (program_name filename ++ codes "\n"))))
                s))
