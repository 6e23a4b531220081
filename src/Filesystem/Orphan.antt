-- ===== src/Filesystem/Orphan.antt =====
-- An entry that hangs in no directory keeps the tree well formed.
use pine_os.Base.{
  ℕ, ◌+◌, ◌<◌, ◌≡◌, ◌≢◌, ap, ◌∙◌, sym, ◌==◌, inl, inr, true, false, none, some, List, [], arith,
  Bool-cases, if◌then◌else◌,
}
use pine_os.Machine.{Entry, State}
use pine_os.Filesystem.Paths.{max_entries}
use pine_os.Filesystem.Tree.{IsTree, IsChild, has, Chain, Chain-frame}

-- One more entry, which hangs nowhere.
pub record Orphaned (s s' : State) : Type 0 where
  pub one_more : s'.next_entry ≡ s.next_entry + 1
  pub same_root : s'.root ≡ s.root
  pub same_current : s'.current_dir ≡ s.current_dir
  pub elsewhere : (i : ℕ) → i ≢ s.next_entry → s'.entries i ≡ s.entries i
  pub new_parent : (s'.entries s.next_entry).parent ≡ none
  pub new_children : (s'.entries s.next_entry).children ≡ none
  pub new_used : (s'.entries s.next_entry).used ≡ true

abbrev pub orphan_kids : (ℕ → List ℕ) → ℕ → ℕ → List ℕ
orphan_kids kids n i = if i == n then [] else kids i

module _ (s s' : State) (kids : ℕ → List ℕ) (tree : IsTree s kids) (g : Orphaned s s')
    (free : s.next_entry < max_entries) where
  old : (i : ℕ) → i < s.next_entry → s'.entries i ≡ s.entries i
  old i lt = g.elsewhere i (ground arith)

  before : (i : ℕ) → i < s'.next_entry → (i == s.next_entry) ≡ false → i < s.next_entry
  before i lt e = ground (arith, g.one_more)

  orphan-IsChild :
      (i k : ℕ)
      → i < s'.next_entry
      → has k (orphan_kids kids s.next_entry i) ≡ true
      → IsChild s' i k
  orphan-IsChild i k lt m = elim (Bool-cases (i == s.next_entry)) [
    | inl e ↦ absurd (ground arith)
    | inr e ↦
        let b = before i lt e in
        let c = tree.child i k b (ground arith) in
        record {
          bound = omega (arith, g.one_more, c.bound);
          up = rw (old k c.bound) c.up;
          live = rw (old k c.bound) c.live;
          below_dir = rw (old i b) c.below_dir;
        }
  ]

  orphan-Chain :
      (i : ℕ)
      → i < s'.next_entry
      → Chain s'.entries (s'.entries i).children (orphan_kids kids s.next_entry i)
  orphan-Chain i lt = elim (Bool-cases (i == s.next_entry)) [
    | inl e ↦ let same : i ≡ s.next_entry = ground arith in rw e (rw same g.new_children)
    | inr e ↦
        let b = before i lt e in
        rw e (
          rw (old i b) (
            Chain-frame s.entries s'.entries (kids i) (s.entries i).children
              (λ k m. ap (λ (x : Entry). x.next) (old k (tree.child i k b m).bound))
              (tree.chain i b)))
  ]

  orphan_parent : (i q : ℕ) → i < s'.next_entry → (s'.entries i).parent ≡ some q → q < s'.next_entry
  orphan_parent i q lt e = elim (Bool-cases (i == s.next_entry)) [
    | inl n ↦ let same : i ≡ s.next_entry = ground arith in absurd (ground (arith, g.new_parent))
    | inr n ↦
        let b = before i lt n in
        omega (
          arith,
          g.one_more,
          tree.parent_bound i q b (sym (ap (λ (x : Entry). x.parent) (old i b)) ∙ e),
        )
  ]

  pub Orphaned-IsTree : IsTree s' (orphan_kids kids s.next_entry)
  Orphaned-IsTree = record {
    room = omega (arith, g.one_more);
    root_bound = omega (arith, g.one_more, g.same_root, tree.root_bound);
    root_dir = rw (g.same_root, old s.root tree.root_bound) tree.root_dir;
    root_top = rw (g.same_root, old s.root tree.root_bound) tree.root_top;
    current_bound = omega (arith, g.one_more, g.same_current, tree.current_bound);
    current_is_dir = rw (g.same_current, old s.current_dir tree.current_bound) tree.current_is_dir;
    chain = orphan-Chain;
    child = orphan-IsChild;
    distinct = λ i lt. ground (arith, before i lt, tree.distinct i);
    short = λ i lt. ground (arith, g.one_more, before i lt, tree.short i);
    parent_bound = orphan_parent;
  }
