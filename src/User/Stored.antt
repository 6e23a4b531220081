-- ===== src/User/Stored.antt =====
-- What `user_compile_and_load` of kernel/user.c stores, and what it loads.
use pine_os.Base.{
  ◌⊎◌, ◌-◌, ◌&&◌, ◌≤◌, leb, ltb, get_or, ℕ, zero, suc, ◌+◌, ◌<◌, ◌≡◌, ◌≢◌, refl, ap, ◌∙◌, true,
  Option, some, List, [], ◌∷◌, ◌++◌, pos, length, inl, inr, Option-cases, arith, get_elem?,
  get_elem?-set_self,
}
use pine_os.CString.{Text, strlen, strstr}
use pine_os.Ram.{
  Ram, memory_copy, memory_copy_lem, strcpy-below, strcpy-above, poke, put_bytes, text_at, NoNul,
}
use pine_os.Machine.{Entry, State, ok, and_then, codes}
use pine_os.Filesystem.Paths.{max_file_size, type_file, find_file}
use pine_os.Filesystem.Files.{kept, write_found, write_file}
use pine_os.Filesystem.Same.{SameTree, find_file-SameTree}
use pine_os.Filesystem.Content.{written, written-ram, store-written, written-entry}
use pine_os.Memory.{memory_alloc}
use pine_os.User.{user_find_program, loaded, free_slot}
use pine_os.User.Table.{free_slot-free}
use pine_os.User.Programs.{Fits, with_program, load-with_program}
use pine_os.User.Compile.{
  Session, users_of, with_users, tell, code_of, binary, system_path, fits_path, is_found, store_at,
  taken, user_compile_and_load,
}

put_bytes-below : (m : Ram) (p : ℕ) (l : List ℕ) (a : ℕ) → a < p → put_bytes m p l a ≡ m a
unfolding put_bytes poke
put_bytes-below m p [] a lt = refl
put_bytes-below m p (c ∷ l) a lt = ground (arith, put_bytes-below (poke m p c) (p + 1) l a)

-- The C string at an array ends at its first zero.
text_at-put_bytes :
    (f : ℕ) (m : Ram) (p : ℕ) (t rest : List ℕ)
    → NoNul t
    → length t < f
    → text_at f (put_bytes m p (t ++ (0 ∷ rest))) p ≡ some t
unfolding text_at put_bytes poke
text_at-put_bytes zero m p t rest h lt = absurd (omega arith)
text_at-put_bytes (suc f) m p [] rest h lt =
    ground (arith, put_bytes-below (poke m p 0) (p + 1) rest p)
text_at-put_bytes (suc f) m p (c ∷ t) rest h lt = ground (
  arith,
  text_at-put_bytes f (poke m p c) (p + 1) t rest h.1,
  put_bytes-below (poke m p c) (p + 1) (t ++ (0 ∷ rest)) p,
)

-- the bytes before the first zero of the code for a source with `puts(`
abbrev pub visible : Text
visible = 0x55 ∷ 0x89 ∷ 0xE5 ∷ 0x68 ∷ []

-- The state when the file is written: the code is in the array and a message is printed.
abbrev compiled_state : (compiled : ℕ) → (name source : Text) → Session → Session
compiled_state compiled name source s =
    let s1 = tell (codes "Compiling C program: " ++ (name ++ codes "\n")) s in
    record s1 { fs = record s1.fs { ram = put_bytes s1.fs.ram compiled (code_of source) } }

compiled-SameTree :
    (compiled : ℕ) (name source : Text) (s : Session)
    → SameTree s.fs (compiled_state compiled name source s).fs
compiled-SameTree compiled name source s = record {
  paths = λ j. (refl, refl, refl, refl);
  same_root = refl;
  same_current = refl;
}

code_of-puts :
    (source rest : Text) → strstr source (codes "puts(") ≡ some rest → code_of source ≡ binary true
code_of-puts source rest e = ap (λ (o : Option Text). binary (is_found o)) e

visible-NoNul : NoNul visible
visible-NoNul = (omega arith, (omega arith, (omega arith, (omega arith, tt))))

read-visible :
    (fuel p : ℕ) (m : Ram) (source rest : Text)
    → 4 < fuel
    → strstr source (codes "puts(") ≡ some rest
    → text_at fuel (put_bytes m p (code_of source)) p ≡ some visible
read-visible fuel p m source rest enough calls =
    ap (λ (c : List ℕ). text_at fuel (put_bytes m p c) p) (code_of-puts source rest calls)
    ∙ text_at-put_bytes fuel m p visible _ visible-NoNul enough

store_at-existing :
    (fuel p i : ℕ) (path content : Text) (s : Session)
    → text_at fuel s.fs.ram p ≡ some content
    → find_file path s.fs ≡ ok (some i) s.fs
    → (s.fs.entries i).kind ≡ type_file
    → (s.fs.entries i).content ≢ 0
    → store_at fuel path p s ≡ some (pos 0, record s { fs = written i content s.fs })
unfolding store_at write_file
store_at-existing fuel p i path content s t e k nz = rw t (
    ap (λ r. taken s (and_then r (write_found path content))) e
    ∙ ap (taken s) (store-written i content s.fs k nz))

-- The state when the program is loaded: the file has the visible bytes and a message is printed.
abbrev stored_state : (compiled i : ℕ) → (name source : Text) → Session → Session
stored_state compiled i name source s =
    let s2 = compiled_state compiled name source s in
    tell (codes "Binary stored in " ++ (system_path name ++ codes "\n"))
      (record s2 { fs = written i visible s2.fs })

Fits-stored :
    (compiled i : ℕ) (name source : Text) (s : Session)
    → Fits (users_of s) name compiled 18
    → Fits (users_of (stored_state compiled i name source s)) name compiled 18
unfolding written user_find_program
Fits-stored compiled i name source s f = record {
  has_code = f.has_code;
  least = f.least;
  most = f.most;
  short = f.short;
  new = f.new;
  room = f.room;
  memory = f.memory;
}

put_bytes_at :
    (m : Ram) (p : ℕ) (l : List ℕ) (a : ℕ) → a < length l → put_bytes m p l (p + a) ≡ get_or l a 0
unfolding put_bytes poke
put_bytes_at m p [] a lt = absurd (omega arith)
put_bytes_at m p (c ∷ l) zero lt = ground (arith, put_bytes-below (poke m p c) (p + 1) l p)
put_bytes_at m p (c ∷ l) (suc a) lt =
    let at : p + suc a ≡ p + 1 + a = omega arith in
    rw at (put_bytes_at (poke m p c) (p + 1) l a (omega arith))

-- A write of the visible bytes to a buffer of a file leaves the bytes elsewhere.
written-apart :
    (i : ℕ) (s : State) (a : ℕ)
    → (a < (s.entries i).content) ⊎ ((s.entries i).content + max_file_size ≤ a)
    → (written i visible s).ram a ≡ s.ram a
unfolding kept strlen
written-apart i s a (inl lt) =
    ap (λ (m : Ram). m a) (written-ram i visible s)
    ∙ strcpy-below s.ram (s.entries i).content (kept visible) a lt
written-apart i s a (inr le) =
    ap (λ (m : Ram). m a) (written-ram i visible s)
    ∙ strcpy-above s.ram (s.entries i).content (kept visible) a (omega (arith, le))

-- The array of the compiler, after the file was written, and the copy that a load makes of it.
copy-code :
    (compiled p i a : ℕ) (name source rest : Text) (s : Session)
    → strstr source (codes "puts(") ≡ some rest
    → ((s.fs.entries i).content + max_file_size ≤ compiled)
      ⊎ (compiled + 18 ≤ (s.fs.entries i).content)
    → (p ≤ compiled) ⊎ (compiled + 18 ≤ p)
    → a < 18
    → memory_copy (stored_state compiled i name source s).fs.ram p compiled 18 (p + a)
      ≡ get_or (binary true) a 0
copy-code compiled p i a name source rest s calls apart away lt =
    let s2 = compiled_state compiled name source s in
    let m = (stored_state compiled i name source s).fs.ram in
    let inside : (leb p (p + a) && ltb (p + a) (p + 18)) ≡ true = ground arith in
    let at : p + a - p ≡ a = omega arith in
    let outside : (compiled + a < (s.fs.entries i).content)
        ⊎ ((s.fs.entries i).content + max_file_size ≤ compiled + a) =
      ground (arith, apart) in
    let copied : memory_copy m p compiled 18 (p + a) ≡ m (compiled + a) =
      memory_copy_lem m p compiled 18 (p + a) away ∙ rw (inside, at) refl in
    copied
    ∙ written-apart i s2.fs (compiled + a) outside
    ∙ ap (λ (c : List ℕ). put_bytes s.fs.ram compiled c (compiled + a))
        (code_of-puts source rest calls)
    ∙ put_bytes_at s.fs.ram compiled (binary true) a lt

-- If `/system/<name>` is a file with a buffer of 4096 bytes apart from the compiler's array, the
-- program fits the table and the memory, its new block does not begin inside the array, and C strings
-- are read with a fuel above 4, then compiling a source that contains `puts(` succeeds, the loaded
-- program's block holds the 18 bytes of the code for such a source, and the file's size is 4, which
-- are the bytes before the first zero of the code.
pub user_compile_and_load-Stored :
    (fuel compiled i : ℕ) (name source rest : Text) (s : Session)
    → 4 < fuel
    → strstr source (codes "puts(") ≡ some rest
    → find_file (system_path name) s.fs ≡ ok (some i) s.fs
    → (s.fs.entries i).kind ≡ type_file
    → (s.fs.entries i).content ≢ 0
    → Fits (users_of s) name compiled 18
    → ((s.fs.entries i).content + max_file_size ≤ compiled)
      ⊎ (compiled + 18 ≤ (s.fs.entries i).content)
    → ((memory_alloc 18 s.fs.heap).0 ≤ compiled) ⊎ (compiled + 18 ≤ (memory_alloc 18 s.fs.heap).0)
    → (j : ℕ) × (s' : Session) × (user_compile_and_load fuel compiled name source s
        ≡ some (pos 0, s'))
      × ((s'.fs.entries i).size ≡ 4)
      × (get_elem? s'.programs j ≡ some (loaded name (memory_alloc 18 s.fs.heap).0 18))
      × ((a : ℕ)
          → a < 18
          → s'.fs.ram ((memory_alloc 18 s.fs.heap).0 + a) ≡ get_or (binary true) a 0)
unfolding user_compile_and_load strlen kept written
user_compile_and_load-Stored fuel compiled i name source rest s enough calls found k nz f apart
      away =
    let s2 = compiled_state compiled name source s in
    let s3 = stored_state compiled i name source s in
    let g = Fits-stored compiled i name source s f in
    let short : fits_path name ≡ true = ground (arith, f.short) in
    let read : text_at fuel s2.fs.ram compiled ≡ some visible =
      read-visible fuel compiled s.fs.ram source rest enough calls in
    let size : length (code_of source) ≡ 18 = ap length (code_of-puts source rest calls) in
    let step =
      store_at-existing fuel compiled i (system_path name) visible s2 read
        (find_file-SameTree s.fs s2.fs (some i) (compiled-SameTree compiled name source s)
          (system_path name) found)
        k nz in
    elim (Option-cases (free_slot 0 s.programs)) [
      | inl e ↦ absurd (f.room e)
      | inr (j, e) ↦
          let (n, q, at, inside, _, _) = free_slot-free s.programs 0 j e in
          let load = load-with_program (users_of s3) name compiled 18 j g e in
          (
            j,
            tell (codes "Program compiled and loaded successfully\n")
                (with_users (with_program j name compiled 18 (users_of s3)) s3),
            rw (short, step, size, load) refl,
            ap (λ (x : Entry). x.size) (written-entry i visible s2.fs),
            get_elem?-set_self s.programs j _ (omega (arith, at, inside)),
            λ a.
                copy-code compiled (memory_alloc 18 s.fs.heap).0 i a name source rest s calls apart
                  away,
          )
    ]
