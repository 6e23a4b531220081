-- ===== src/User/Running.antt =====
-- Running a program, and the system calls: the second half of kernel/user.c.
use pine_os.Base.{
  ℕ, zero, suc, ◌+◌, ◌-◌, ◌%◌, ◌^◌, Option, none, some, [], ◌∷◌, ◌++◌, ◌==◌, ◌||◌, if◌then◌else◌, ℤ,
  pos, minus_one,
}
use pine_os.CString.{Text}
use pine_os.Machine.{codes}
use pine_os.Memory.{Heap, memory_alloc, memory_free}
use pine_os.Ram.{Ram}
use pine_os.Filesystem.Paths.{same_text}
use pine_os.User.{Users, print, user_find_program}

-- The test of memory: `memory_alloc(100)`, and `memory_free` of what it returns.
unfoldable pub freed_again : Option Heap → Users → Option Users
freed_again none s = none
freed_again (some h) s = some (print (codes "Memory freed successfully!\n") (record s { heap = h }))

unfoldable pub try_memory : Users → Option Users
try_memory s =
    let (p, h) = memory_alloc 100 s.heap in
    if p == 0
    then some (print (codes "Memory allocation failed!\n") (record s { heap = h }))
    else freed_again (memory_free p h)
        (print (codes "Memory allocation successful!\n") (record s { heap = h }))

unfoldable pub run_test : Users → Option Users
run_test s =
    elim (try_memory (
      print
        (codes "User Program Test\n=================\nTesting string functions...\n"
          ++ codes "String test passed!\nTesting memory allocation...\n")
        s)) [
          | none ↦ none
          | some s' ↦
              some (print (codes "All tests completed!\nBinary stored in /system/test\n") s')
        ]

-- The program's code is not executed: the output is that of the name.
unfoldable pub run_named : Text → Users → Option Users
run_named name s =
    if same_text name (codes "hello")
    then some (
        print
          (codes "Hello from user space!\nThis program runs in user mode.\n"
            ++ codes "Compiled and stored in /system folder.\n")
          s)
    else if same_text name (codes "calc")
    then some (
        print
          (codes "Simple Calculator\n=================\nComputing 10 + 5 = 15\n"
            ++ (codes "Computing 10 - 5 = 5\nComputing 10 * 5 = 50\n"
                ++ codes "Computing 10 / 5 = 2\nBinary stored in /system/calc\n"))
          s)
    else if same_text name (codes "test")
    then run_test s
    else some (
        print
          (codes "Executing user program (simulated)...\nProgram output: Hello from "
            ++ (name ++ codes "!\n"))
          s)

abbrev finish : Text → Option Users → Option (ℤ × Users)
finish name none = none
finish name (some s) = some (pos 0, print (codes "Program " ++ (name ++ codes " finished\n")) s)

unfoldable pub run_at : Option ℕ → Text → Users → Option (ℤ × Users)
run_at none name s =
    some (minus_one, print (codes "Error: Program not found: " ++ (name ++ codes "\n")) s)
run_at (some i) name s =
    finish name (run_named name (print (codes "Running user program: " ++ (name ++ codes "\n")) s))

unfoldable pub user_run_program : Text → Users → Option (ℤ × Users)
user_run_program name s = run_at (user_find_program (some name) s) name s

-- the bytes that `buffer[0]` to `buffer[n - 1]` are
unfoldable pub bytes_at : ℕ → Ram → ℕ → Text
bytes_at zero m p = []
bytes_at (suc n) m p = m p ∷ bytes_at n m (p + 1)

-- An `unsigned int` result; `none` is a free of a wild pointer.
unfoldable pub syscall_handler : (number arg1 arg2 arg3 : ℕ) → Users → Option (ℕ × Users)
syscall_handler number arg1 arg2 arg3 s =
    if number == 0
    then some
        (0, print (codes "User program exited with code " ++ ((b'0' + arg1 % 10) ∷ codes "\n")) s)
    else if number == 1
    then (if (arg2 == 0) || (arg3 == 0)
        then some (0, s)
        else some (arg3, print (bytes_at arg3 s.ram arg2) s))
    else if number == 2
    then some (0, s)
    else if number == 5
    then (let (p, h) = memory_alloc arg1 s.heap in some (p, record s { heap = h }))
    else if number == 6
    then elim (memory_free arg1 s.heap) [ none ↦ none | some h ↦ some (0, record s { heap = h }) ]
    else some
        (2 ^ 32 - 1, print (codes "Unknown system call: " ++ ((b'0' + number % 10) ∷ codes "\n")) s)
