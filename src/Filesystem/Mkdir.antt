-- ===== src/Filesystem/Mkdir.antt =====
-- `filesystem_mkdir` always returns, and keeps the tree well formed.
use pine_os.Base.{ℕ, ◌<◌, ◌≡◌, ap, ◌∙◌, inl, inr, List, [], ◌∷◌, ◌++◌, subst, sym, arith, ℤ}
use pine_os.CString.{Text, strlen}
use pine_os.Machine.{State, ok, and_then}
use pine_os.Filesystem.Paths.{max_path, type_dir, start}
use pine_os.Filesystem.Files.{make_dir, mkdir}
use pine_os.Filesystem.Tree.{IsTree}
use pine_os.Filesystem.Lookup.{find_file-returns, strlen-start, start-Bounded}
use pine_os.Filesystem.Growth.{Grown-IsTree, grown_kids}
use pine_os.Filesystem.Making.{Made, make_dir-Made}

-- What is printed does not touch the tree.
pub printed-IsTree :
    (s : State) (kids : ℕ → List ℕ) (text : Text)
    → IsTree s kids
    → IsTree (record s { console = text }) kids
printed-IsTree s kids text t = record {
  room = t.room;
  root_bound = t.root_bound;
  root_dir = t.root_dir;
  root_top = t.root_top;
  current_bound = t.current_bound;
  current_is_dir = t.current_is_dir;
  chain = t.chain;
  child = λ i k lt m.
      let c = t.child i k lt m in
      record { bound = c.bound; up = c.up; live = c.live; below_dir = c.below_dir };
  distinct = t.distinct;
  short = t.short;
  parent_bound = t.parent_bound;
}

-- some arrangement of the entries as a tree
abbrev pub Tree : State → Type 0
Tree s = (kids : ℕ → List ℕ) × IsTree s kids

pub Made-Tree :
    (s s' : State) (p : ℕ) (name : Text) (kind : ℕ) (r : ℤ) (kids : ℕ → List ℕ)
    → IsTree s kids
    → p < s.next_entry
    → (s.entries p).kind ≡ type_dir
    → Made s p name kind r s'
    → Tree s'
Made-Tree s s' p name kind r kids tree b d (inl (e, (text, q))) =
    (kids, subst (λ x. IsTree x kids) (sym q) (printed-IsTree s kids (s.console ++ text) tree))
Made-Tree s s' p name kind r kids tree b d (inr (e, g, free, k, n)) =
    (grown_kids kids p s.next_entry, Grown-IsTree s s' kids p tree g b d free)

module _ (s : State) (kids : ℕ → List ℕ) (tree : IsTree s kids) where
  pub start-is_dir : (name : Text) → (s.entries (start name s).0).kind ≡ type_dir
  unfolding start
  start-is_dir [] = tree.current_is_dir
  start-is_dir (c ∷ name) = ground (arith, tree.current_is_dir, tree.root_dir)

  -- On a well-formed tree `mkdir` with a name of at most 255 bytes returns: with -1 and only a
  -- message on the console, or with 0 and one more entry in the table, a directory that bears the
  -- first 31 bytes of the name without its leading slash and is the first child of the root or of
  -- the current directory. The tree stays well formed.
  pub mkdir-Made :
      (name : Text)
      → strlen name < max_path
      → (r : ℤ) × (s' : State) × (mkdir name s ≡ ok r s')
        × Made s (start name s).0 (start name s).1 type_dir r s'
        × Tree s'
  unfolding mkdir
  mkdir-Made name lt =
      let p = (start name s).0 in
      let rest = (start name s).1 in
      let b = start-Bounded s kids tree name in
      let (o, f, _) =
        find_file-returns s kids tree rest (omega (arith, strlen-start s kids tree name)) in
      let (r, s', e, m) = make_dir-Made s p rest o b in
      (
        r,
        s',
        ap (λ x. and_then x (make_dir p rest)) f ∙ e,
        m,
        Made-Tree s s' p rest type_dir r kids tree b (start-is_dir name) m,
      )
