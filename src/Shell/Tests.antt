-- ===== src/Shell/Tests.antt =====
-- The shell on the root directory of an empty file system.
use pine_os.Base.{
  ℤ, ltb, length, false, if◌then◌else◌, ◌≡◌, ◌<◌, true, refl, none, [], ◌∷◌, ◌++◌, arith,
}
use pine_os.CString.{Text, strlen}
use pine_os.Memory.{memory_init}
use pine_os.Machine.{Entry, State, ok, fault, Cmd, codes, pure}
use pine_os.Filesystem.Paths.{type_dir, max_path, start}
use pine_os.Filesystem.Tree.{IsTree}
use pine_os.Filesystem.Mkdir.{Tree}
use pine_os.Shell.{skip_spaces, execute_command, keys}
use pine_os.Shell.Line.{IsLine, Agree, keys-Agree}
use pine_os.Shell.Dispatch.{after_received, execute_command-mkdir}
use pine_os.Filesystem.Making.{Made}
use pine_os.Filesystem.Files.{mkdir}

abbrev root_entry : Entry
root_entry = record {
  name = b'/' ∷ [];
  kind = type_dir;
  size = 0;
  content = 0;
  parent = none;
  children = none;
  next = none;
  used = true;
}

abbrev fresh : State
fresh = record {
  entries = λ i. root_entry;
  next_entry = 1;
  root = 0;
  current_dir = 0;
  heap = memory_init;
  ram = λ a. 0;
  console = [];
}

fresh-IsTree : IsTree fresh (λ i. [])
fresh-IsTree = record {
  room = omega arith;
  root_bound = omega arith;
  root_dir = refl;
  root_top = refl;
  current_bound = omega arith;
  current_is_dir = refl;
  chain = λ i lt. refl;
  child = λ i k lt m. absurd (ground arith);
  distinct = λ i lt. tt;
  short = λ i lt. omega arith;
  parent_bound = λ i p lt e. absurd (ground arith);
}

abbrev nothing : Cmd (Unit {0})
nothing = pure tt

abbrev others : Text → Cmd (Unit {0})
others t = pure tt

abbrev docs : Text
docs = b' ' ∷ b'd' ∷ []

docs_short : strlen docs < max_path
unfolding strlen
docs_short = omega arith

empty-IsLine : IsLine []
empty-IsLine = record { fits = omega arith; printable = tt }

abbrev shell : Text → Cmd (Unit {0})
shell = execute_command 256 (λ k. []) nothing nothing others

-- a shell that faults on a text of more than 255 bytes
abbrev fragile : Text → Cmd (Unit {0})
fragile t s = if ltb 255 (length t) then fault else shell t s

shell-fragile-Agree : Agree shell fragile
shell-fragile-Agree t s line =
    let short : ltb 255 (length t) ≡ false = ground (arith, line.fits) in rw short refl

keys-Agree_example :
    keys shell (b'l' ∷ b's' ∷ 10 ∷ []) [] fresh ≡ keys fragile (b'l' ∷ b's' ∷ 10 ∷ []) [] fresh
keys-Agree_example =
    keys-Agree shell fragile shell-fragile-Agree (b'l' ∷ b's' ∷ 10 ∷ []) [] fresh empty-IsLine

execute_command-mkdir_example :
    (s' : State) × (execute_command 256
        (λ k. [])
        nothing
        nothing
        others
        (codes "mkdir" ++ docs)
        fresh
      ≡ ok tt s')
    × (r : ℤ) × (mkdir (skip_spaces docs) (after_received (codes "mkdir" ++ docs) fresh) ≡ ok r s')
    × Made
        (after_received (codes "mkdir" ++ docs) fresh)
        (start (skip_spaces docs) (after_received (codes "mkdir" ++ docs) fresh)).0
        (start (skip_spaces docs) (after_received (codes "mkdir" ++ docs) fresh)).1
        type_dir
        r
        s'
    × Tree s'
execute_command-mkdir_example =
    execute_command-mkdir 256 (λ k. []) nothing nothing others docs fresh (λ i. []) fresh-IsTree
      docs_short
