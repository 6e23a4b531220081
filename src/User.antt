-- ===== src/User.antt =====
-- The user programs of kernel/user.c: the table of the loaded programs.
-- The null pointer for a name is `none`; a program is pointed to by its place in the table.
pub mod Table
pub mod Programs
pub mod Count
pub mod Running
pub mod Compile
pub mod Builtin
pub mod Stored
mod Tests
use pine_os.Base.{
  ℕ, zero, suc, ◌+◌, ◌-◌, ◌%◌, ◌^◌, Bool, true, false, Option, none, some, List, [], ◌∷◌, ◌++◌,
  ◌==◌, ◌&&◌, ◌||◌, ltb, if◌then◌else◌, ℤ, pos, minus_one, add32, sub32, get_elem?, set, replicate,
}
use pine_os.CString.{Text, strlen}
use pine_os.Machine.{codes}
use pine_os.Memory.{Heap, memory_alloc, memory_free}
use pine_os.Ram.{Ram, memory_copy}
use pine_os.Filesystem.Paths.{same_text}
use pine_os.Filesystem.Listing.{decimal}

abbrev pub max_program_size : ℕ
max_program_size = 16384

abbrev pub max_user_programs : ℕ
max_user_programs = 16

-- `user_program_t`; the name is the C string in `name[32]`, the code is its address.
pub record Program : Type 0 where
  pub name : Text
  pub code : ℕ
  pub size : ℕ
  pub entry_point : ℕ
  pub used : Bool

-- `user_programs`, `program_count` (its 32 bits), `user_stack`, `user_heap`, with the allocator,
-- the bytes of memory, and all that was printed.
pub record Users : Type 0 where
  pub programs : List Program
  pub program_count : ℕ
  pub user_stack : ℕ
  pub user_heap : ℕ
  pub heap : Heap
  pub ram : Ram
  pub console : Text

abbrev pub vacant : Program
vacant = record { name = []; code = 0; size = 0; entry_point = 0; used = false }

abbrev pub print : Text → Users → Users
print t s = record s { console = s.console ++ t }

-- `user_init` up to its allocations: the table is cleared.
unfoldable pub clear_programs : Users → Users
clear_programs s = record s { programs = replicate max_user_programs vacant; program_count = 0 }

-- `used && strcmp(name, program.name) == 0`
unfoldable pub is_named : Text → Program → Bool
is_named name p = p.used && same_text p.name name

-- The place of the first program of the name; the slots are counted from `i`.
unfoldable pub slot_of : Text → ℕ → List Program → Option ℕ
slot_of name i [] = none
slot_of name i (p ∷ l) = if is_named name p then some i else slot_of name (i + 1) l

unfoldable pub user_find_program : Option Text → Users → Option ℕ
user_find_program none s = none
user_find_program (some name) s = slot_of name 0 s.programs

-- The first slot that is not used.
unfoldable pub free_slot : ℕ → List Program → Option ℕ
free_slot i [] = none
free_slot i (p ∷ l) = if p.used then free_slot (i + 1) l else some i

abbrev pub loaded : Text → ℕ → ℕ → Program
loaded name p size = record { name = name; code = p; size = size; entry_point = 0; used = true }

abbrev pub load_message : Text → ℕ → Text
load_message name size =
    codes "Loaded user program: " ++ (name ++ (codes " (" ++ (decimal size ++ codes " bytes)\n")))

-- `none` is a fault: a name that does not fit `name[32]` with its NUL.
unfoldable pub fill : ℕ → Text → (p code size : ℕ) → Users → Option (ℤ × Users)
fill i name p code size s =
    if ltb 31 (strlen name)
    then none
    else some (
      pos 0,
      print (load_message name size) (record s {
        programs = set s.programs i (loaded name p size);
        program_count = add32 s.program_count 1;
        ram = memory_copy s.ram p code size;
      }),
    )

unfoldable pub load_at : Option ℕ → Text → (code size : ℕ) → Users → Option (ℤ × Users)
load_at none name code size s = some (minus_one, print (codes "Error: No free program slots\n") s)
load_at (some i) name code size s =
    let (p, h) = memory_alloc size s.heap in
    if p == 0
    then some (
      minus_one,
      print (codes "Error: Failed to allocate program memory\n") (record s { heap = h }),
    )
    else fill i name p code size (record s { heap = h })

unfoldable pub load_new : Option ℕ → Text → (code size : ℕ) → Users → Option (ℤ × Users)
load_new (some i) name code size s =
    some (minus_one, print (codes "Error: Program already exists: " ++ (name ++ codes "\n")) s)
load_new none name code size s = load_at (free_slot 0 s.programs) name code size s

unfoldable pub user_load_program : Option Text → (code size : ℕ) → Users → Option (ℤ × Users)
user_load_program none code size s = some (minus_one, s)
user_load_program (some name) code size s =
    if (code == 0) || ((size == 0) || ltb max_program_size size)
    then some (minus_one, s)
    else load_new (user_find_program (some name) s) name code size s

abbrev pub remove_message : Text → Text
remove_message name = codes "Removed user program: " ++ (name ++ codes "\n")

-- `none` is a free of a wild pointer; `memory_free` ignores the null pointer, as the test here does.
unfoldable pub vacate : Option Heap → ℕ → Text → Users → Option (ℤ × Users)
vacate none i name s = none
vacate (some h) i name s = some (
  pos 0,
  print (remove_message name) (record s {
    programs = set s.programs i vacant;
    program_count = sub32 s.program_count 1;
    heap = h;
  }),
)

unfoldable pub remove_at : Option (ℕ × Program) → Text → Users → Option (ℤ × Users)
remove_at none name s =
    some (minus_one, print (codes "Error: Program not found: " ++ (name ++ codes "\n")) s)
remove_at (some (i, q)) name s =
    vacate (if q.code == 0 then some s.heap else memory_free q.code s.heap) i name s

-- what the pointer to a program leads to
unfoldable pub pointed : Option ℕ → List Program → Option (ℕ × Program)
pointed none l = none
pointed (some i) l = elim (get_elem? l i) [ none ↦ none | some q ↦ some (i, q) ]

-- The kernel calls this with a name only.
unfoldable pub user_remove_program : Text → Users → Option (ℤ × Users)
user_remove_program name s = remove_at (pointed (user_find_program (some name) s) s.programs) name s

unfoldable pub program_lines : List Program → Text
program_lines [] = []
program_lines (p ∷ l) =
    let rest = program_lines l in
    if p.used
    then codes "  " ++ (p.name ++ (codes " (" ++ (decimal p.size ++ (codes " bytes)\n" ++ rest))))
    else rest

unfoldable pub user_list_programs : Users → Users
user_list_programs s =
    print
      (codes "Loaded user programs:\n"
        ++ (if s.program_count == 0 then codes "  (none)\n" else program_lines s.programs))
      s
