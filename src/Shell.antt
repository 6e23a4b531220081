-- ===== src/Shell.antt =====
-- The shell of kernel/kernel.c: the line editor of `kernel_loop` and the dispatch of
-- `execute_command`.
pub mod Line
pub mod Dispatch
pub mod Network
pub mod Wireless
pub mod Software
mod Tests
use Prim.Native.String.{String}
use pine_os.Base.{
  ℕ, ◌+◌, ◌-◌, Bool, true, false, ◌&&◌, ◌||◌, not, Option, none, some, List, [], ◌∷◌, ◌++◌, ltb,
  leb, ◌==◌, if◌then◌else◌, take, drop, length, ℤ,
}
use pine_os.CString.{Text, strcmp, strncmp, strlen}
use pine_os.Ram.{text_at}
use pine_os.Machine.{
  State, Run, ok, fault, out_of_fuel, Cmd, pure, and_then, ◌>>=◌, ◌>>◌, codes, puts, say, alloc,
  free,
}
use pine_os.Filesystem.Paths.{is_zero, same_text}
use pine_os.Filesystem.Files.{mkdir, touch, write_file, read_file, cd}
use pine_os.Filesystem.Removal.{rm, rmdir, cp}
use pine_os.Filesystem.Listing.{ls, pwd, tree}

-- `strncmp(command, word, strlen(word)) == 0`
unfoldable pub starts : Text → Text → Bool
starts command word = is_zero (strncmp command word (strlen word))

-- `while (*p == ' ') p++`
unfoldable pub skip_spaces : Text → Text
skip_spaces [] = []
skip_spaces (c ∷ t) = if c == b' ' then skip_spaces t else c ∷ t

-- The bytes up to the first space, and what follows the space, if there is one.
unfoldable pub split_space : Text → Text × Option Text
split_space [] = ([], none)
split_space (c ∷ t) =
    let (word, rest) = split_space t in if c == b' ' then ([], some t) else (c ∷ word, rest)

abbrev pub print_all : List String → Cmd (Unit {0})
print_all [] = pure tt
print_all (t ∷ ts) = say t >> print_all ts

abbrev pub help_lines : List String
help_lines =
    "Available commands:\n" ∷ "  help     - Show this help\n" ∷ "  clear    - Clear screen\n"
    ∷ "  memory   - Show memory status\n" ∷ "  process  - Show process status\n"
    ∷ "  test     - Run memory test\n" ∷ "  reboot   - Reboot system\n"
    ∷ "  ls       - List directory contents\n" ∷ "  cd       - Change directory\n"
    ∷ "  pwd      - Print working directory\n" ∷ "  mkdir    - Create directory\n"
    ∷ "  touch    - Create empty file\n" ∷ "  cat      - Display file contents\n"
    ∷ "  echo     - Write text to file\n" ∷ "  rm       - Remove file\n"
    ∷ "  rmdir    - Remove directory\n" ∷ "  tree     - Show directory tree\n"
    ∷ "  cp       - Copy file\n" ∷ "  storage  - List storage devices\n"
    ∷ "  save     - Save filesystem to USB\n" ∷ "  load     - Load filesystem from USB\n"
    ∷ "  format   - Format USB device\n" ∷ "  programs - List user programs\n"
    ∷ "  run      - Run user program\n" ∷ "  compile  - Compile C program from file\n"
    ∷ "  unload   - Remove user program\n" ∷ "  ifconfig - Show/configure network interfaces\n"
    ∷ "  dhcp     - Start DHCP client on interface\n"
    ∷ "  wifi     - WiFi management (scan/connect/status)\n"
    ∷ "  ping     - Send ICMP ping packets\n" ∷ "  netstat  - Show network statistics\n"
    ∷ "  lspci    - List PCI devices\n" ∷ "  nslookup - DNS hostname resolution\n"
    ∷ "  nettest  - Test complete networking stack\n" ∷ []

unfoldable pub memory_status : Cmd (Unit {0})
memory_status = print_all (
    "Memory status:\n" ∷ "  Total: 1MB\n" ∷ "  Used: " ∷ "Unknown\n" ∷ "  Free: " ∷ "Unknown\n"
    ∷ [])

unfoldable pub memory_check : Cmd (Unit {0})
memory_check = do
  say "Running memory test...\n"
  ptr1 ← alloc 512
  ptr2 ← alloc 1024
  if not (ptr1 == 0) && not (ptr2 == 0)
      then (do
        say "  Memory allocation test: PASSED\n"
        free ptr1
        free ptr2
        say "  Memory deallocation test: PASSED\n")
      else say "  Memory test: FAILED\n"

-- `while (1)`
abbrev pub halt : Cmd (Unit {0})
halt s = out_of_fuel

-- the result of a command is not looked at
abbrev pub ignore : Cmd ℤ → Cmd (Unit {0})
ignore m = m >>= λ r. pure tt

abbrev pub echo_usage : Cmd (Unit {0})
echo_usage = say "Usage: echo filename content\n"

-- The name is copied to `temp[256]`, with a NUL behind it.
unfoldable pub echo : Text × Option Text → Cmd (Unit {0})
echo (filename, none) = echo_usage
echo (filename, some content) =
    if ltb (strlen filename) 256 then ignore (write_file filename content) else λ s. fault

abbrev pub cp_usage : Cmd (Unit {0})
cp_usage = say "Usage: cp <src> <dest>\n"

-- `text_at` with this fuel reads C strings; `stack` is what the stack holds (see `pwd`).
module _ (fuel : ℕ) (stack : ℕ → Text) where
  abbrev pub show : Option Text → Cmd (Unit {0})
  show none s = out_of_fuel
  show (some t) s = puts t s

  abbrev pub cat_found : ℕ → Cmd (Unit {0})
  cat_found p s = if not (p == 0) then show (text_at fuel s.ram p) s else ok tt s

  unfoldable pub cat : Text → Cmd (Unit {0})
  cat name = read_file name >>= cat_found

  unfoldable pub copy_to : Text → Text → Cmd (Unit {0})
  copy_to src [] = cp_usage
  copy_to src (c ∷ dest) = ignore (cp fuel (take 255 src) (c ∷ dest))

  unfoldable pub copy : Text × Option Text → Cmd (Unit {0})
  copy (src, none) = cp_usage
  copy (src, some rest) = copy_to src (skip_spaces rest)

  abbrev pub show_tree : Text → Cmd (Unit {0})
  show_tree path = if strlen path == 0 then tree fuel (codes "/") 0 else tree fuel path 0

  -- What the commands of other components do: `clear`, `process`, and those tested behind `cp`.
  module _ (clear process_status : Cmd (Unit {0})) (others : Text → Cmd (Unit {0})) where
    -- the branches from `ls` on
    unfoldable pub file_command : Text → Cmd (Unit {0})
    file_command c =
        if starts c (codes "ls")
        then ignore (ls (skip_spaces (drop 2 c)))
        else if starts c (codes "cd")
        then ignore (cd (skip_spaces (drop 2 c)))
        else if same_text c (codes "pwd")
        then ignore (pwd stack)
        else if starts c (codes "mkdir")
        then ignore (mkdir (skip_spaces (drop 5 c)))
        else if starts c (codes "touch")
        then ignore (touch (skip_spaces (drop 5 c)))
        else if starts c (codes "cat")
        then cat (skip_spaces (drop 3 c))
        else if starts c (codes "echo")
        then echo (split_space (skip_spaces (drop 4 c)))
        else if starts c (codes "rm")
        then ignore (rm (skip_spaces (drop 2 c)))
        else if starts c (codes "rmdir")
        then ignore (rmdir (skip_spaces (drop 5 c)))
        else if starts c (codes "tree")
        then show_tree (skip_spaces (drop 4 c))
        else if starts c (codes "cp")
        then copy (split_space (skip_spaces (drop 2 c)))
        else others c

    unfoldable pub dispatch : Text → Cmd (Unit {0})
    dispatch c =
        if same_text c (codes "help")
        then print_all help_lines
        else if same_text c (codes "clear")
        then clear
        else if same_text c (codes "memory")
        then memory_status
        else if same_text c (codes "process")
        then process_status
        else if same_text c (codes "test")
        then memory_check
        else if same_text c (codes "reboot")
        then say "Rebooting...\n" >> halt
        else file_command c

    unfoldable pub execute_command : Text → Cmd (Unit {0})
    execute_command c = do say "\n"; say "DEBUG: Received command: '"; puts c; say "'\n"; dispatch c

-- the line without its last byte
unfoldable pub drop_last : Text → Text
drop_last [] = []
drop_last (c ∷ []) = []
drop_last (c ∷ d ∷ t) = c ∷ drop_last (d ∷ t)

-- One round of `kernel_loop` with the character `c` from the keyboard; `typed` is the text in
-- `input_buffer`, and the result the text that is there afterwards. The call of `process_schedule`
-- at the end of a round works on state of its own.
module _ (execute : Text → Cmd (Unit {0})) where
  unfoldable pub key : ℕ → Text → Cmd Text
  key c typed =
      if c == 10 || c == 13
      then (do execute typed; say "> "; pure [])
      else if c == 8 && ltb 0 (length typed)
      then (do puts (8 ∷ b' ' ∷ 8 ∷ []); pure (drop_last typed))
      else if ltb (length typed) 255 && (leb 32 c && leb c 126)
      then (do puts (c ∷ []); pure (typed ++ (c ∷ [])))
      else pure typed

  -- the rounds with these characters
  unfoldable pub keys : List ℕ → Text → Cmd Text
  keys [] typed = pure typed
  keys (c ∷ cs) typed = key c typed >>= keys cs
