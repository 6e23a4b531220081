-- ===== src/Filesystem/Making.antt =====
-- What `filesystem_mkdir` and `filesystem_touch` do on each branch.
use pine_os.Base.{
  ℕ, ◌+◌, ◌≤◌, ◌<◌, ◌≡◌, ◌≢◌, refl, ◌∙◌, ◌⊎◌, inl, inr, true, false, Option, none, some, ◌++◌,
  arith, leb, dec_lt, ℤ, pos, minus_one,
}
use pine_os.CString.{Text}
use pine_os.Memory.{Heap}
use pine_os.Machine.{Entry, State, ok, codes, puts, update, read_entry, set_entry}
use pine_os.Filesystem.Paths.{max_entries, type_dir, fresh_entry, create_file}
use pine_os.Filesystem.Files.{link, report, complain, attach_dir, make_dir}
use pine_os.Filesystem.Growth.{Grown}

-- Only the console has changed.
abbrev pub Printed : State → State → Type 0
Printed s s' = (text : Text) × (s' ≡ record s { console = s.console ++ text })

-- what a made entry is named and what it is
abbrev pub IsNew : State → State → Text → ℕ → Type 0
IsNew s s' name kind =
    ((s'.entries s.next_entry).kind ≡ kind)
    × ((s'.entries s.next_entry).name ≡ (fresh_entry name kind).name)

-- the table after the new entry `n` has been put in front of the children of `p`
linked : ℕ → ℕ → (ℕ → Entry) → ℕ → Entry
unfolding set_entry
linked p n es =
    let es' = set_entry es n (record (es n) { parent = some p; next = (es p).children }) in
    set_entry es' p (record (es' p) { children = some n })

-- The table `es` has a free-standing entry `e` behind the entries of `s`.
abbrev pub Extends : State → Entry → (ℕ → Entry) → Type 0
Extends s e es = (es s.next_entry ≡ e) × ((i : ℕ) → i ≢ s.next_entry → es i ≡ s.entries i)

-- The state that a successful `mkdir` or `touch` leaves.
unfoldable pub made : ℕ → (ℕ → Entry) → Heap → Text → Text → State → State
unfolding linked
made p es h before name s = record s {
  entries = linked p s.next_entry es;
  next_entry = s.next_entry + 1;
  heap = h;
  console = ((s.console ++ before) ++ name) ++ codes "\n";
}

pub made-Grown :
    (s : State) (p : ℕ) (e : Entry) (es : ℕ → Entry) (h : Heap) (before name : Text)
    → Extends s e es
    → p < s.next_entry
    → e.children ≡ none
    → e.used ≡ true
    → Grown s (made p es h before name s) p
unfolding made
made-Grown s p e es h before name ex b c u = record {
  one_more = refl;
  same_root = refl;
  same_current = refl;
  elsewhere = λ i ne ne'. ground (arith, ex.1 i);
  at_parent = ground (arith, ex.1 p);
  new_parent = ground (arith, ex.0);
  new_children = ground (arith, ex.0);
  new_next = ground (arith, ex.1 p);
  new_used = ground (arith, ex.0);
}

pub made-entry :
    (s : State) (p : ℕ) (e : Entry) (es : ℕ → Entry) (h : Heap) (before name : Text)
    → Extends s e es
    → p < s.next_entry
    → let new = (made p es h before name s).entries s.next_entry in
      (new.kind ≡ e.kind) × (new.name ≡ e.name) × (new.content ≡ e.content) × (new.size ≡ e.size)
unfolding made
made-entry s p e es h before name ex b =
    (ground (arith, ex.0), ground (arith, ex.0), ground (arith, ex.0), ground (arith, ex.0))

pub fresh-Extends : (s : State) (e : Entry) → Extends s e (set_entry s.entries s.next_entry e)
unfolding set_entry
fresh-Extends s e = (ground arith, λ i ne. ground arith)

pub again-Extends :
    (s : State) (e d : Entry)
    → Extends s e (set_entry (set_entry s.entries s.next_entry d) s.next_entry e)
unfolding set_entry
again-Extends s e d = (ground arith, λ i ne. ground arith)

-- the table of `mkdir`
abbrev pub dir_table : State → Text → ℕ → Entry
dir_table s name = set_entry s.entries s.next_entry (fresh_entry name type_dir)

make_dir-made :
    (s : State) (p : ℕ) (name : Text)
    → s.next_entry < max_entries
    → make_dir p name none s
      ≡ ok (pos 0) (made p (dir_table s name) s.heap (codes "Directory created: ") name s)
unfolding make_dir attach_dir create_file link report read_entry update puts made
make_dir-made s p name free =
    let room : leb max_entries s.next_entry ≡ false = ground arith in rw room

make_dir-full :
    (s : State) (p : ℕ) (name : Text)
    → max_entries ≤ s.next_entry
    → make_dir p name none s
      ≡ ok minus_one (record s { console = s.console ++ codes "Error: Cannot create directory\n" })
unfolding make_dir attach_dir create_file complain puts
make_dir-full s p name full =
    let room : leb max_entries s.next_entry ≡ true = ground arith in rw room

-- What a call that makes an entry of a kind may leave: with result -1, only a message on the
-- console; with 0, one more entry, which is the first child of the directory `p` and bears the name.
abbrev pub Made : State → ℕ → Text → ℕ → ℤ → State → Type 0
Made s p name kind r s' =
    ((r ≡ minus_one) × ((text : Text) × (s' ≡ record s { console = s.console ++ text })))
    ⊎ ((r ≡ pos 0)
        × Grown s s' p
        × (s.next_entry < max_entries)
        × ((s'.entries s.next_entry).kind ≡ kind)
        × ((s'.entries s.next_entry).name ≡ (fresh_entry name kind).name))

pub make_dir-Made :
    (s : State) (p : ℕ) (name : Text) (o : Option ℕ)
    → p < s.next_entry
    → (r : ℤ) × (s' : State) × (make_dir p name o s ≡ ok r s') × Made s p name type_dir r s'
make_dir-Made s p name (some i) b = (
  minus_one,
  record s { console = s.console ++ codes "Error: Directory already exists\n" },
  unfold make_dir complain puts in refl,
  inl (refl, (codes "Error: Directory already exists\n", refl)),
)
make_dir-Made s p name none b = elim (dec_lt s.next_entry max_entries) [
  | yes free ↦
      let ex = fresh-Extends s (fresh_entry name type_dir) in
      let m =
        made-entry s p (fresh_entry name type_dir) (dir_table s name) s.heap
          (codes "Directory created: ") name ex b in
      (
        pos 0,
        made p (dir_table s name) s.heap (codes "Directory created: ") name s,
        make_dir-made s p name free,
        inr (
          refl,
          made-Grown s p (fresh_entry name type_dir) (dir_table s name) s.heap
              (codes "Directory created: ") name ex b (unfold fresh_entry in refl)
              (unfold fresh_entry in refl),
          free,
          m.0 ∙ unfold fresh_entry in refl,
          m.1,
        ),
      )
  | no full ↦ (
    minus_one,
    record s { console = s.console ++ codes "Error: Cannot create directory\n" },
    make_dir-full s p name (omega arith),
    inl (refl, (codes "Error: Cannot create directory\n", refl)),
  )
]
