-- ===== src/Filesystem/Paths.antt =====
-- Entries, names and paths: `filesystem_create_file` and `filesystem_find_file` of
-- kernel/filesystem.c.
use pine_os.Base.{
  ℕ, zero, suc, ◌+◌, ◌-◌, Bool, true, false, Option, none, some, [], ◌∷◌, ltb, leb, ◌==◌,
  if◌then◌else◌, take, ℤ, pos,
}
use pine_os.CString.{Text, strcmp, strlen, strtok}
use pine_os.Machine.{Entry, State, ok, fault, out_of_fuel, Cmd, set_entry}

abbrev pub max_filename : ℕ
max_filename = 32

abbrev pub max_path : ℕ
max_path = 256

-- `MAX_FILES + MAX_DIRS`
abbrev pub max_entries : ℕ
max_entries = 150

abbrev pub max_file_size : ℕ
max_file_size = 4096

abbrev pub type_file : ℕ
type_file = 1

abbrev pub type_dir : ℕ
type_dir = 2

abbrev pub slash : Text
slash = b'/' ∷ []

abbrev pub is_zero : ℤ → Bool
is_zero (pos zero) = true
is_zero _ = false

-- `strcmp(s, t) == 0`
unfoldable pub same_text : Text → Text → Bool
same_text s t = is_zero (strcmp s t)

-- The name keeps at most 31 bytes.
unfoldable pub fresh_entry : Text → ℕ → Entry
fresh_entry name kind = record {
  name = take (if leb max_filename (strlen name) then max_filename - 1 else strlen name) name;
  kind = kind;
  size = 0;
  content = 0;
  parent = none;
  children = none;
  next = none;
  used = true;
}

unfoldable pub create_file : Text → ℕ → Cmd (Option ℕ)
unfolding fresh_entry
create_file name kind s =
    if leb max_entries s.next_entry
    then ok none s
    else ok (some s.next_entry) (record s {
      entries = set_entry s.entries s.next_entry (fresh_entry name kind);
      next_entry = s.next_entry + 1;
    })

-- The walk along the siblings to the first of that name; the outer `none` means out of fuel.
unfoldable pub find_child : ℕ → (ℕ → Entry) → Option ℕ → Text → Option (Option ℕ)
unfolding same_text
find_child zero es c name = none
find_child (suc f) es none name = some none
find_child (suc f) es (some i) name = elim (same_text (es i).name name) [
  | true ↦ some (some i)
  | false ↦ find_child f es (es i).next name
]

-- a directory has at most 150 children, and the walk sees the null pointer behind them
abbrev pub sibling_fuel : ℕ
sibling_fuel = 151

-- The next component, if the last one was found.
abbrev pub proceed : Option (Option ℕ) → (ℕ → Option (Option ℕ)) → Option (Option ℕ)
proceed none k = none
proceed (some none) k = some none
proceed (some (some i)) k = k i

-- `while (component)`, with the result of the last `strtok`
unfoldable pub walk : ℕ → (ℕ → Entry) → ℕ → Option Text × Option Text → Option (Option ℕ)
walk zero es dir t = none
walk (suc f) es dir (none, saved) = some (some dir)
walk (suc f) es dir (some component, saved) =
    proceed (find_child sibling_fuel es (es dir).children component)
      (λ i. walk f es i (strtok none slash saved))

abbrev pub settle : Option (Option ℕ) → Cmd (Option ℕ)
settle none s = out_of_fuel
settle (some r) s = ok r s

-- the directory that a path starts from, and the path without its leading slash
unfoldable pub start : Text → State → ℕ × Text
start [] s = (s.current_dir, [])
start (c ∷ rest) s = if c == b'/' then (s.root, rest) else (s.current_dir, c ∷ rest)

-- the copy of the path into `path_copy[MAX_PATH]`, and the components; each takes a byte
unfoldable pub search : ℕ × Text → Cmd (Option ℕ)
unfolding walk find_child
search (dir, rest) s =
    if ltb max_path (strlen rest + 1)
    then fault
    else settle (walk (strlen rest + 2) s.entries dir (strtok (some rest) slash none)) s

abbrev pub or_root : Option ℕ → State → ℕ
or_root none s = s.root
or_root (some i) s = i

unfoldable pub find_file : Text → Cmd (Option ℕ)
unfolding search start
find_file path s =
    if same_text path slash
    then ok (some s.root) s
    else if same_text path (b'.' ∷ [])
    then ok (some s.current_dir) s
    else if same_text path (b'.' ∷ b'.' ∷ [])
    then ok (some (or_root (s.entries s.current_dir).parent s)) s
    else search (start path s) s
