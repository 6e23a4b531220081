-- ===== src/Filesystem/Tests.antt =====
-- A file system with one file, and the theorems on it at work.
use pine_os.Base.{
  ℕ, ◌≡◌, ◌<◌, ◌≤◌, ◌+◌, ◌⊎◌, zero, suc, refl, true, Option, none, some, List, [], ◌∷◌, ◌==◌,
  if◌then◌else◌, arith, length, ℤ, pos,
}
use pine_os.CString.{
  Text, strlen, strcmp, strtok, strtok_saved, skip_delims, take_token, cut_token, is_delim,
}
use pine_os.Memory.{memory_init, memory_alloc}
use pine_os.Ram.{text_at}
use pine_os.Machine.{Entry, State, ok}
use pine_os.Filesystem.Paths.{
  type_dir, type_file, start, find_file, same_text, walk, find_child, search, max_file_size,
  max_path,
}
use pine_os.Filesystem.Files.{mkdir, touch, write_file, read_file, kept}
use pine_os.Filesystem.Tree.{IsTree, Chain}
use pine_os.Filesystem.Lookup.{Bounded, find_file-returns}
use pine_os.Filesystem.Making.{Made}
use pine_os.Filesystem.Mkdir.{Tree, mkdir-Made}
use pine_os.Filesystem.Touch.{Touched, touch-Touched}
use pine_os.Filesystem.Content.{write_file-read_file}

abbrev readme : Text
readme = b'a' ∷ []

abbrev docs : Text
docs = b'd' ∷ b'o' ∷ b'c' ∷ []

abbrev hello : Text
hello = b'h' ∷ b'i' ∷ []

abbrev root_entry : Entry
root_entry = record {
  name = b'/' ∷ [];
  kind = type_dir;
  size = 0;
  content = 0;
  parent = none;
  children = some 1;
  next = none;
  used = true;
}

abbrev readme_entry : Entry
readme_entry = record {
  name = readme;
  kind = type_file;
  size = 0;
  content = 0x1000c;
  parent = some 0;
  children = none;
  next = none;
  used = true;
}

abbrev table : ℕ → Entry
table i = if i == 0 then root_entry else readme_entry

-- the root, with the file `a` in it
abbrev one_file : State
one_file = record {
  entries = table;
  next_entry = 2;
  root = 0;
  current_dir = 0;
  heap = (memory_alloc 4096 memory_init).1;
  ram = λ a. 0;
  console = [];
}

abbrev kids : ℕ → List ℕ
kids i = if i == 0 then 1 ∷ [] else []

one_file-IsTree : IsTree one_file kids
one_file-IsTree = record {
  room = omega arith;
  root_bound = omega arith;
  root_dir = refl;
  root_top = refl;
  current_bound = omega arith;
  current_is_dir = refl;
  chain = chained;
  child = λ i k lt m. record {
    bound = ground arith;
    up = ground arith;
    live = ground arith;
    below_dir = ground arith;
  };
  distinct = λ i lt. ground arith;
  short = λ i lt. ground arith;
  parent_bound = λ i p lt e. ground arith;
}
  where
    chained : (i : ℕ) → i < 2 → Chain table (table i).children (kids i)
    chained zero lt = (refl, refl)
    chained (suc zero) lt = refl
    chained (suc (suc i)) lt = absurd (omega arith)

readme_short : strlen readme < max_path
unfolding strlen
readme_short = omega arith

docs_short : strlen docs < max_path
unfolding strlen
docs_short = omega arith

find_readme : find_file readme one_file ≡ ok (some 1) one_file
unfolding find_file strcmp strtok strtok_saved strlen skip_delims take_token cut_token is_delim
    same_text walk find_child search
find_readme = refl

find_file-returns_example :
    (r : Option ℕ) × (find_file readme one_file ≡ ok r one_file) × Bounded one_file r
find_file-returns_example = find_file-returns one_file kids one_file-IsTree readme readme_short

mkdir-Made_example :
    (r : ℤ) × (s' : State) × (mkdir docs one_file ≡ ok r s')
    × Made one_file (start docs one_file).0 (start docs one_file).1 type_dir r s'
    × Tree s'
mkdir-Made_example = mkdir-Made one_file kids one_file-IsTree docs docs_short

touch-Touched_example :
    (r : ℤ) × (s' : State) × (touch docs one_file ≡ ok r s')
    × Touched one_file (start docs one_file).0 (start docs one_file).1 r s'
    × Tree s'
touch-Touched_example = touch-Touched one_file kids docs one_file-IsTree docs_short

write_file-read_file_example :
    (s' : State) × (write_file readme hello one_file ≡ ok (pos 0) s')
    × (read_file readme s' ≡ ok 0x1000c s')
    × (text_at max_file_size s'.ram 0x1000c ≡ some (kept hello))
    × ((s'.entries 1).size ≡ length (kept hello))
    × ((a : ℕ) → ((0x1000c ≤ a) × (a < 0x1000c + max_file_size)) ⊎ (s'.ram a ≡ 0))
write_file-read_file_example =
    write_file-read_file one_file readme hello 1 find_readme refl (ground arith)
      (ground arith, (ground arith, tt))
