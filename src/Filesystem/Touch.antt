-- ===== src/Filesystem/Touch.antt =====
-- `filesystem_touch` always returns, and keeps the tree well formed.
use pine_os.Base.{
  ℕ, ◌+◌, ◌≤◌, ◌<◌, ◌≡◌, ◌≢◌, refl, ap, ◌∙◌, ◌==◌, ◌⊎◌, inl, inr, true, false, Option, none, some,
  List, ◌++◌, arith, leb, dec_lt, Bool-cases, ℤ, pos, minus_one,
}
use pine_os.CString.{Text, strlen}
use pine_os.Memory.{Heap, memory_alloc}
use pine_os.Machine.{Entry, State, ok, and_then, codes, puts, alloc, update, read_entry, set_entry}
use pine_os.Filesystem.Paths.{
  max_path, max_entries, max_file_size, type_dir, type_file, start, fresh_entry, create_file,
}
use pine_os.Filesystem.Files.{link, report, complain, attach_file, make_file, touch}
use pine_os.Filesystem.Tree.{IsTree}
use pine_os.Filesystem.Lookup.{find_file-returns, strlen-start, start-Bounded}
use pine_os.Filesystem.Making.{Made, made, made-Grown, made-entry, again-Extends}
use pine_os.Filesystem.Mkdir.{Tree, Made-Tree, start-is_dir}
use pine_os.Filesystem.Orphan.{Orphaned, orphan_kids, Orphaned-IsTree}

-- the new entry, with its buffer
abbrev file_entry : Text → ℕ → Entry
file_entry name p = record (fresh_entry name type_file) { content = p }

abbrev file_table : State → Text → ℕ → ℕ → Entry
file_table s name p =
    set_entry (set_entry s.entries s.next_entry (fresh_entry name type_file)) s.next_entry
      (record (set_entry s.entries s.next_entry (fresh_entry name type_file) s.next_entry) {
        content = p;
      })

-- the state when there is no room for the buffer: the entry stays in the table, without a parent
leaked : State → Text → Heap → State
leaked s name h = record s {
  entries = file_table s name 0;
  next_entry = s.next_entry + 1;
  heap = h;
  console = s.console ++ codes "Error: Out of memory\n";
}

make_file-made :
    (s : State) (d : ℕ) (name : Text)
    → s.next_entry < max_entries
    → (memory_alloc max_file_size s.heap).0 ≢ 0
    → let (p, h) = memory_alloc max_file_size s.heap in
      make_file d name none s
      ≡ ok (pos 0) (made d (file_table s name p) h (codes "File created: ") name s)
unfolding make_file attach_file create_file link report read_entry update puts made alloc
make_file-made s d name free got =
    let room : leb max_entries s.next_entry ≡ false = ground arith in
    let given : ((memory_alloc max_file_size s.heap).0 == 0) ≡ false = ground arith in
    rw (room, given)

make_file-leaked :
    (s : State) (d : ℕ) (name : Text)
    → s.next_entry < max_entries
    → (memory_alloc max_file_size s.heap).0 ≡ 0
    → make_file d name none s ≡ ok minus_one (leaked s name (memory_alloc max_file_size s.heap).1)
unfolding make_file attach_file create_file complain update puts alloc leaked
make_file-leaked s d name free out =
    let room : leb max_entries s.next_entry ≡ false = ground arith in rw (room, out)

make_file-full :
    (s : State) (d : ℕ) (name : Text)
    → max_entries ≤ s.next_entry
    → make_file d name none s
      ≡ ok minus_one (record s { console = s.console ++ codes "Error: Cannot create file\n" })
unfolding make_file attach_file create_file complain puts
make_file-full s d name full =
    let room : leb max_entries s.next_entry ≡ true = ground arith in rw room

leaked-Orphaned : (s : State) (name : Text) (h : Heap) → Orphaned s (leaked s name h)
unfolding leaked set_entry fresh_entry
leaked-Orphaned s name h = record {
  one_more = refl;
  same_root = refl;
  same_current = refl;
  elsewhere = λ i ne. ground arith;
  new_parent = ground arith;
  new_children = ground arith;
  new_used = ground arith;
}

-- What `touch` may leave: what a call that makes an entry leaves, or, when the allocator has no
-- room for the buffer, result -1 and an entry in use that hangs nowhere.
abbrev pub Touched : State → ℕ → Text → ℤ → State → Type 0
Touched s d name r s' =
    Made s d name type_file r s'
    ⊎ ((r ≡ minus_one) × ((memory_alloc max_file_size s.heap).0 ≡ 0) × Orphaned s s')

abbrev new_file : State → Text → ℕ → Entry
new_file s name p =
    record (set_entry s.entries s.next_entry (fresh_entry name type_file) s.next_entry) {
      content = p;
    }

new_file_lem :
    (s : State) (name : Text) (p : ℕ)
    → let e = new_file s name p in
      (e.children ≡ none)
      × (e.used ≡ true)
      × (e.kind ≡ type_file)
      × (e.name ≡ (fresh_entry name type_file).name)
unfolding set_entry fresh_entry
new_file_lem s name p = (ground arith, ground arith, ground arith, ground arith)

make_file-Made :
    (s : State) (d : ℕ) (name : Text) (p : ℕ) (h : Heap)
    → d < s.next_entry
    → s.next_entry < max_entries
    → Made s d name type_file
        (pos 0)
        (made d (file_table s name p) h (codes "File created: ") name s)
make_file-Made s d name p h b free =
    let e = new_file s name p in
    let ex = again-Extends s e (fresh_entry name type_file) in
    let (c, u, k, n) = new_file_lem s name p in
    let m = made-entry s d e (file_table s name p) h (codes "File created: ") name ex b in
    inr (
      refl,
      made-Grown s d e (file_table s name p) h (codes "File created: ") name ex b c u,
      free,
      m.0 ∙ k,
      m.1 ∙ n,
    )

make_file-Touched :
    (s : State) (kids : ℕ → List ℕ) (d : ℕ) (name : Text) (o : Option ℕ)
    → IsTree s kids
    → d < s.next_entry
    → (s.entries d).kind ≡ type_dir
    → (r : ℤ) × (s' : State) × (make_file d name o s ≡ ok r s') × Touched s d name r s' × Tree s'
make_file-Touched s kids d name (some i) tree b k =
    let text = codes "Error: File already exists\n" in
    let m : Made s d name type_file minus_one (record s { console = s.console ++ text }) =
      inl (refl, (text, refl)) in
    (
      minus_one,
      record s { console = s.console ++ text },
      unfold make_file complain puts in refl,
      inl m,
      Made-Tree s _ d name type_file minus_one kids tree b k m,
    )
make_file-Touched s kids d name none tree b k = elim (dec_lt s.next_entry max_entries) [
  | no full ↦
      let text = codes "Error: Cannot create file\n" in
      let m : Made s d name type_file minus_one (record s { console = s.console ++ text }) =
        inl (refl, (text, refl)) in
      (
        minus_one,
        record s { console = s.console ++ text },
        make_file-full s d name (omega arith),
        inl m,
        Made-Tree s _ d name type_file minus_one kids tree b k m,
      )
  | yes free ↦ elim (Bool-cases ((memory_alloc max_file_size s.heap).0 == 0)) [
    | inl out ↦
        let g = leaked-Orphaned s name (memory_alloc max_file_size s.heap).1 in
        (
          minus_one,
          leaked s name (memory_alloc max_file_size s.heap).1,
          make_file-leaked s d name free (ground arith),
          inr (refl, ground arith, g),
          (orphan_kids kids s.next_entry, Orphaned-IsTree s _ kids tree g free),
        )
    | inr got ↦
        let h = (memory_alloc max_file_size s.heap).1 in
        let p = (memory_alloc max_file_size s.heap).0 in
        let m = make_file-Made s d name p h b free in
        (
          pos 0,
          made d (file_table s name p) h (codes "File created: ") name s,
          make_file-made s d name free (ground arith),
          inl m,
          Made-Tree s _ d name type_file (pos 0) kids tree b k m,
        )
  ]
]

-- On a well-formed tree `touch` with a name of at most 255 bytes returns: with -1 and only a
-- message on the console; with -1 and an entry that hangs nowhere, when the allocator has no room
-- for the buffer; or with 0 and a file that bears the first 31 bytes of the name without its
-- leading slash and is the first child of the root or of the current directory. The tree stays
-- well formed.
pub touch-Touched :
    (s : State) (kids : ℕ → List ℕ) (name : Text)
    → IsTree s kids
    → strlen name < max_path
    → (r : ℤ) × (s' : State) × (touch name s ≡ ok r s')
      × Touched s (start name s).0 (start name s).1 r s'
      × Tree s'
unfolding touch
touch-Touched s kids name tree lt =
    let d = (start name s).0 in
    let rest = (start name s).1 in
    let (o, f, _) =
      find_file-returns s kids tree rest (omega (arith, strlen-start s kids tree name)) in
    let (r, s', e, m, t) =
      make_file-Touched s kids d rest o tree (start-Bounded s kids tree name)
        (start-is_dir s kids tree name) in
    (r, s', ap (λ x. and_then x (make_file d rest)) f ∙ e, m, t)
