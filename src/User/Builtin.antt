-- ===== src/User/Builtin.antt =====
-- `user_init` of kernel/user.c, and the programs that it loads.
use pine_os.Base.{ℕ, Option, some, List, [], ◌∷◌, ◌++◌, ◌==◌, ◌||◌, if◌then◌else◌}
use pine_os.Base.Bind.{◌>>=◌}
use pine_os.CString.{Text}
use pine_os.Machine.{codes}
use pine_os.Memory.{memory_alloc}
use pine_os.Filesystem.Files.{mkdir, write_file}
use pine_os.User.{clear_programs, user_load_program}
use pine_os.User.Compile.{
  Session, users_of, with_users, tell, on_files, on_programs, system_path, store_at,
}

-- a file of a source: the include, `main`, and its calls of `puts`
abbrev source_of : List Text → Text
source_of [] = codes "    return 0;\n}\n"
source_of (l ∷ ls) = codes "    puts(\"" ++ (l ++ (codes "\");\n" ++ source_of ls))

abbrev main_of : List Text → Text
main_of l = codes "#include \"userlib.h\"\n\nint main(void) {\n" ++ source_of l

abbrev pub hello_source : Text
hello_source = main_of (
    codes "Hello from user space!"
    ∷ codes "This program runs in user mode."
    ∷ codes "Compiled and stored in /system folder."
    ∷ [])

abbrev pub calc_source : Text
calc_source = main_of (
    codes "Simple Calculator"
    ∷ codes "================="
    ∷ codes "Computing 10 + 5 = 15"
    ∷ codes "Computing 10 - 5 = 5"
    ∷ codes "Computing 10 * 5 = 50"
    ∷ codes "Computing 10 / 5 = 2"
    ∷ codes "Binary stored in /system/calc"
    ∷ [])

abbrev pub test_source : Text
test_source = main_of (
    codes "User Program Test"
    ∷ codes "================="
    ∷ codes "Testing string functions..."
    ∷ codes "String test passed!"
    ∷ codes "Testing memory allocation..."
    ∷ codes "Memory test passed!"
    ∷ codes "All tests completed!"
    ∷ codes "Binary stored in /system/test"
    ∷ [])

-- The addresses of `hello_binary`, `calc_binary` and `test_binary`; what lies behind them is in the
-- memory of the session.
pub record Arrays : Type 0 where
  pub hello : ℕ
  pub calc : ℕ
  pub test : ℕ

module _ (fuel : ℕ) where
  -- The array at `p` goes into a file up to its first NUL, and into the table with its size; neither
  -- result is looked at.
  unfoldable pub install : Text → (p size : ℕ) → Session → Option Session
  install name p size s = do
    (r, s1) ← store_at fuel (system_path name) p s
    (v, s2) ← on_programs (user_load_program (some name) p size) s1
    some s2

  unfoldable pub user_create_demo_programs : Arrays → Session → Option Session
  user_create_demo_programs a s0 = do
    s1 ← install (codes "hello") a.hello 20 s0
    s2 ← install (codes "calc") a.calc 5 s1
    s3 ← install (codes "test") a.test 5 s2
    some (tell (codes "Demo programs created in /system/\n") s3)

  unfoldable pub user_load_builtin_programs : Arrays → Session → Option Session
  user_load_builtin_programs a s0 = do
    (r, s1) ← on_files (mkdir (codes "system")) s0
    (v, s2) ← on_files (write_file (codes "/home/hello.c") hello_source) s1
    (w, s3) ← on_files (write_file (codes "/home/calc.c") calc_source) s2
    (x, s4) ← on_files (write_file (codes "/home/test.c") test_source) s3
    s5 ← user_create_demo_programs a s4
    some (
        tell
          (codes "Built-in user programs loaded\n"
            ++ (codes "Source files in /home/, binaries in /system/\n"
                ++ (codes "Use 'compile <filename.c>' to compile C programs\n"
                    ++ codes "Use 'run <program>' to execute programs\n")))
          s5)

  unfoldable pub user_init : Arrays → Session → Option Session
  user_init a s0 =
      let s1 = tell (codes "DEBUG: Starting user_init()\n") s0 in
      let s2 = with_users (clear_programs (users_of s1)) s1 in
      let s3 = tell (codes "DEBUG: Programs array cleared\n") s2 in
      let (stack, h1) = memory_alloc 4096 s3.fs.heap in
      let (top, h2) = memory_alloc 8192 h1 in
      let s4 = record s3 { fs = record s3.fs { heap = h2 }; user_stack = stack; user_heap = top } in
      if (stack == 0) || (top == 0)
      then some (tell (codes "Error: Failed to allocate user space memory\n") s4)
      else (do
        s5 ← user_load_builtin_programs a (
            tell
              (codes "DEBUG: Memory allocated for user space\n"
                ++ (codes "User space initialized\n"
                    ++ codes "DEBUG: Loading built-in programs...\n"))
              s4)
        some (tell (codes "DEBUG: user_init() complete\n") s5))
