-- ===== src/Filesystem/Growth.antt =====
-- A new entry in front of its parent's children keeps the tree well formed.
use pine_os.Base.{
  ℕ, ◌+◌, ◌≤◌, ◌<◌, ◌≡◌, ◌≢◌, refl, ap, ◌∙◌, sym, ◌==◌, ◌⊎◌, inl, inr, true, false, Option, none,
  some, List, [], ◌∷◌, arith, length, Bool-cases, if◌then◌else◌,
}
use pine_os.Machine.{Entry, State}
use pine_os.Filesystem.Paths.{max_entries, type_dir}
use pine_os.Filesystem.Tree.{Chain, Chain-frame, has, Distinct, IsTree, IsChild}

-- The state `s'` is `s` with one more entry, the first child of `p`.
pub record Grown (s s' : State) (p : ℕ) : Type 0 where
  pub one_more : s'.next_entry ≡ s.next_entry + 1
  pub same_root : s'.root ≡ s.root
  pub same_current : s'.current_dir ≡ s.current_dir
  pub elsewhere : (i : ℕ) → i ≢ s.next_entry → i ≢ p → s'.entries i ≡ s.entries i
  pub at_parent : s'.entries p ≡ record (s.entries p) { children = some s.next_entry }
  pub new_parent : (s'.entries s.next_entry).parent ≡ some p
  pub new_children : (s'.entries s.next_entry).children ≡ none
  pub new_next : (s'.entries s.next_entry).next ≡ (s.entries p).children
  pub new_used : (s'.entries s.next_entry).used ≡ true

abbrev pub grown_kids : (ℕ → List ℕ) → ℕ → ℕ → ℕ → List ℕ
grown_kids kids p n i = if i == n then [] else if i == p then n ∷ kids p else kids i

module _ (s s' : State) (kids : ℕ → List ℕ) (p : ℕ) (tree : IsTree s kids) (g : Grown s s' p)
    (p_bound : p < s.next_entry) (p_dir : (s.entries p).kind ≡ type_dir)
    (free : s.next_entry < max_entries) where
  -- an old entry changes at most in its first child
  old :
      (i : ℕ)
      → i < s.next_entry
      → ((s'.entries i).next ≡ (s.entries i).next)
        × ((s'.entries i).parent ≡ (s.entries i).parent)
        × ((s'.entries i).kind ≡ (s.entries i).kind)
        × ((s'.entries i).used ≡ (s.entries i).used)
        × (i ≢ p → (s'.entries i).children ≡ (s.entries i).children)
  old i lt = elim (Bool-cases (i == p)) [
    | inl e ↦
        let same : i ≡ p = ground arith in
        rw (same, g.at_parent) (refl, refl, refl, refl, λ ne. absurd (ne refl))
    | inr e ↦ rw (g.elsewhere i (ground arith) (ground arith)) (refl, refl, refl, refl, λ ne. refl)
  ]

  old-Chain :
      (i : ℕ) (c : Option ℕ)
      → i < s.next_entry
      → Chain s.entries c (kids i)
      → Chain s'.entries c (kids i)
  old-Chain i c lt h =
      Chain-frame s.entries s'.entries (kids i) c (λ k m. (old k (tree.child i k lt m).bound).0) h

  before : (i : ℕ) → i < s'.next_entry → (i == s.next_entry) ≡ false → i < s.next_entry
  before i lt e = ground (arith, g.one_more)

  grown : ℕ → List ℕ
  grown = grown_kids kids p s.next_entry

  grown-Chain : (i : ℕ) → i < s'.next_entry → Chain s'.entries (s'.entries i).children (grown i)
  unfolding grown
  grown-Chain i lt = elim (Bool-cases (i == s.next_entry)) [
    | inl e ↦ let same : i ≡ s.next_entry = ground arith in rw e (rw same g.new_children)
    | inr e ↦ elim (Bool-cases (i == p)) [
      | inl e' ↦
          let same : i ≡ p = ground arith in
          rw (e, e')
            (
              rw same (ap (λ (x : Entry). x.children) g.at_parent),
              rw g.new_next (old-Chain p (s.entries p).children p_bound (tree.chain p p_bound)),
            )
      | inr e' ↦
          let b = before i lt e in
          rw (e, e')
            (rw ((old i b).4 (ground arith))
              (old-Chain i (s.entries i).children b (tree.chain i b)))
    ]
  ]

  grown-IsChild : (i k : ℕ) → i < s'.next_entry → has k (grown i) ≡ true → IsChild s' i k
  unfolding grown
  grown-IsChild i k lt m = elim (Bool-cases (i == s.next_entry)) [
    | inl e ↦ absurd (ground arith)
    | inr e ↦
        let b = before i lt e in
        elim (Bool-cases (i == p)) [
          | inl e' ↦
              let same : i ≡ p = ground arith in
              elim (Bool-cases (s.next_entry == k)) [
                | inl q ↦
                    let kn : k ≡ s.next_entry = ground arith in
                    record {
                      bound = omega (arith, g.one_more);
                      up = rw (kn, same) g.new_parent;
                      live = rw kn g.new_used;
                      below_dir = rw same ((old p p_bound).2 ∙ p_dir);
                    }
                | inr q ↦ inherited i k b (ground arith)
              ]
          | inr e' ↦ inherited i k b (ground arith)
        ]
  ]
    where
      inherited : (i k : ℕ) → i < s.next_entry → has k (kids i) ≡ true → IsChild s' i k
      inherited i k b m =
          let c = tree.child i k b m in
          record {
            bound = omega (arith, g.one_more, c.bound);
            up = (old k c.bound).1 ∙ c.up;
            live = (old k c.bound).3 ∙ c.live;
            below_dir = (old i b).2 ∙ c.below_dir;
          }

  grown-Distinct : (i : ℕ) → i < s'.next_entry → Distinct (grown i)
  unfolding grown
  grown-Distinct i lt = elim (Bool-cases (i == s.next_entry)) [
    | inl e ↦ rw e tt
    | inr e ↦ elim (Bool-cases (i == p)) [
      | inl e' ↦
          rw (e, e') (new_name (Bool-cases (has s.next_entry (kids p))), tree.distinct p p_bound)
      | inr e' ↦ rw (e, e') (tree.distinct i (before i lt e))
    ]
  ]
    where
      new_name :
          (has s.next_entry (kids p) ≡ true) ⊎ (has s.next_entry (kids p) ≡ false)
          → has s.next_entry (kids p) ≡ false
      new_name (inl m) = absurd (omega (arith, (tree.child p s.next_entry p_bound m).bound))
      new_name (inr n) = n

  grown_short : (i : ℕ) → i < s'.next_entry → length (grown i) ≤ s'.next_entry
  unfolding grown
  grown_short i lt = ground (arith, g.one_more, tree.short p p_bound, before i lt, tree.short i)

  grown_parent : (i q : ℕ) → i < s'.next_entry → (s'.entries i).parent ≡ some q → q < s'.next_entry
  grown_parent i q lt e = elim (Bool-cases (i == s.next_entry)) [
    | inl n ↦
        let same : i ≡ s.next_entry = ground arith in
        let here : p ≡ q = ground (arith, g.new_parent) in omega (arith, g.one_more)
    | inr n ↦
        let b = before i lt n in
        omega (arith, g.one_more, tree.parent_bound i q b (sym (old i b).1 ∙ e))
  ]

  pub Grown-IsTree : IsTree s' (grown_kids kids p s.next_entry)
  unfolding grown
  Grown-IsTree = record {
    room = omega (arith, g.one_more);
    root_bound = omega (arith, g.one_more, g.same_root, tree.root_bound);
    root_dir = rw g.same_root ((old s.root tree.root_bound).2 ∙ tree.root_dir);
    root_top = rw g.same_root ((old s.root tree.root_bound).1 ∙ tree.root_top);
    current_bound = omega (arith, g.one_more, g.same_current, tree.current_bound);
    current_is_dir =
        rw g.same_current ((old s.current_dir tree.current_bound).2 ∙ tree.current_is_dir);
    chain = grown-Chain;
    child = grown-IsChild;
    distinct = grown-Distinct;
    short = grown_short;
    parent_bound = grown_parent;
  }
