-- ===== src/User/Tests.antt =====
-- A table with one program, in its first slot, and a file system with a file for another one.
use pine_os.Base.{
  ◌⊎◌, inr, ◌+◌, ◌<◌, ◌≤◌, get_or, Option, none, ◌==◌, true, ℕ, ◌≡◌, refl, some, [], ◌∷◌, arith,
  pos, get_elem?, replicate, if◌then◌else◌,
}
use pine_os.CString.{Text, strcmp, strlen, strstr, strtok}
use pine_os.Machine.{Entry, ok, codes}
use pine_os.Filesystem.Paths.{type_dir, type_file, find_file}
use pine_os.User.Compile.{binary, Session, users_of, system_path, user_compile_and_load}
use pine_os.User.Stored.{user_compile_and_load-Stored}
use pine_os.CString.Compare.{IsText}
use pine_os.Memory.{memory_init, memory_alloc, best_fit, grant}
use pine_os.Memory.Run.{boot, Reach-IsValid}
use pine_os.Filesystem.Paths.{same_text}
use pine_os.User.Count.{IsTable, clear, load, Reach-IsTable}
use pine_os.User.{
  clear_programs, Users, vacant, loaded, is_named, slot_of, free_slot, user_find_program,
  user_load_program, user_remove_program,
}
use pine_os.User.Programs.{
  Fits, with_program, load-with_program, user_remove_program-user_load_program,
}

-- "calc"
abbrev calc : Text
calc = 99 ∷ 97 ∷ 108 ∷ 99 ∷ []

-- "hi"
abbrev greeter : Text
greeter = 104 ∷ 105 ∷ []

abbrev one_program : Users
one_program = record {
  programs = loaded greeter 0x100100 8 ∷ replicate 15 vacant;
  program_count = 1;
  user_stack = 0;
  user_heap = 0;
  heap = memory_init;
  ram = λ _. 0;
  console = [];
}

calc-IsText : IsText calc
calc-IsText = ground arith

greeter-IsText : IsText greeter
greeter-IsText = ground arith

calc-Fits : Fits one_program calc 0x2000 100
unfolding user_find_program slot_of free_slot is_named same_text strcmp strlen memory_alloc
    memory_init best_fit grant
calc-Fits = record {
  has_code = ground arith;
  least = omega arith;
  most = omega arith;
  short = omega arith;
  new = refl;
  room = ground arith;
  memory = ground arith;
}

clear-Fits : Fits (clear_programs one_program) calc 0x2000 100
unfolding clear_programs user_find_program slot_of free_slot is_named same_text strcmp strlen
    memory_alloc memory_init best_fit grant
clear-Fits = record {
  has_code = ground arith;
  least = omega arith;
  most = omega arith;
  short = omega arith;
  new = refl;
  room = ground arith;
  memory = ground arith;
}

user_remove_program-user_load_program_example :
    (s1 : Users) × (s2 : Users) × (user_load_program (some calc) 0x2000 100 one_program
      ≡ some (pos 0, s1))
    × (user_remove_program calc s1 ≡ some (pos 0, s2))
    × (s2.heap ≡ memory_init)
    × (s2.program_count ≡ 1)
    × (user_find_program (some greeter) s2 ≡ user_find_program (some greeter) one_program)
user_remove_program-user_load_program_example =
    user_remove_program-user_load_program one_program calc greeter 0x2000 100 calc-IsText
      (Reach-IsValid boot) (omega arith) calc-Fits

Reach-IsTable_example : IsTable (with_program 0 calc 0x2000 100 (clear_programs one_program))
unfolding clear_programs free_slot
Reach-IsTable_example =
    let s = clear_programs one_program in
    Reach-IsTable (
      load (some calc) 0x2000 100 (pos 0) (clear one_program)
        (load-with_program s calc 0x2000 100 0 clear-Fits refl))

-- a file system with the directory `system` and in it the file `calc`
abbrev entry_of : Text → (kind content : ℕ) → (parent children : Option ℕ) → Entry
entry_of name kind content parent children = record {
  name = name;
  kind = kind;
  size = 0;
  content = content;
  parent = parent;
  children = children;
  next = none;
  used = true;
}

abbrev entries : ℕ → Entry
entries i =
    if i == 0
    then entry_of (codes "/") type_dir 0 none (some 1)
    else if i == 1
    then entry_of (codes "system") type_dir 0 (some 0) (some 2)
    else entry_of calc type_file 0x8000 (some 1) none

abbrev session : Session
session = record {
  fs = record {
    entries = entries;
    next_entry = 3;
    root = 0;
    current_dir = 0;
    heap = memory_init;
    ram = λ _. 0;
    console = [];
  };
  programs = replicate 16 vacant;
  program_count = 0;
  user_stack = 0;
  user_heap = 0;
}

session-Fits : Fits (users_of session) calc 0x2000 18
unfolding user_find_program slot_of free_slot is_named same_text strcmp strlen memory_alloc
    memory_init best_fit grant
session-Fits = record {
  has_code = ground arith;
  least = omega arith;
  most = omega arith;
  short = omega arith;
  new = refl;
  room = ground arith;
  memory = ground arith;
}

abbrev source : Text
source = codes "puts(1);"

source-calls : strstr source (codes "puts(") ≡ some source
unfolding strstr codes
source-calls = refl

session-find : find_file (system_path calc) session.fs ≡ ok (some 2) session.fs
unfolding find_file strcmp codes strlen strtok
session-find = refl

session-away :
    ((memory_alloc 18 memory_init).0 ≤ 0x2000) ⊎ (0x2012 ≤ (memory_alloc 18 memory_init).0)
unfolding memory_alloc memory_init best_fit grant
session-away = inr (ground arith)

user_compile_and_load-Stored_example :
    (j : ℕ) × (s' : Session) × (user_compile_and_load 5 0x2000 calc source session
      ≡ some (pos 0, s'))
    × ((s'.fs.entries 2).size ≡ 4)
    × (get_elem? s'.programs j ≡ some (loaded calc (memory_alloc 18 memory_init).0 18))
    × ((a : ℕ)
        → a < 18
        → s'.fs.ram ((memory_alloc 18 memory_init).0 + a) ≡ get_or (binary true) a 0)
user_compile_and_load-Stored_example =
    user_compile_and_load-Stored 5 0x2000 2 calc source source session (omega arith) source-calls
      session-find refl (omega arith) session-Fits (inr (omega arith)) session-away
