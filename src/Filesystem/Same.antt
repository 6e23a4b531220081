-- ===== src/Filesystem/Same.antt =====
-- A search reads names and pointers only.
use pine_os.Base.{
  ℕ, zero, suc, ◌+◌, ◌≡◌, refl, ap, ap₂, fun_ext, ◌∙◌, sym, inl, inr, Option, none, some, [], ◌∷◌,
  arith, Bool-cases, ltb,
}
use pine_os.CString.{Text, strlen, strtok}
use pine_os.Machine.{Entry, State, ok, fault}
use pine_os.Filesystem.Paths.{
  max_path, slash, same_text, find_child, sibling_fuel, proceed, walk, settle, start, search,
  or_root, find_file,
}

-- The tables agree in all that a search reads.
abbrev pub SamePaths : (ℕ → Entry) → (ℕ → Entry) → Type 0
SamePaths es es' =
    (i : ℕ)
    → ((es' i).name ≡ (es i).name)
      × ((es' i).next ≡ (es i).next)
      × ((es' i).children ≡ (es i).children)
      × ((es' i).parent ≡ (es i).parent)

find_child-SamePaths :
    (f : ℕ) (es es' : ℕ → Entry) (c : Option ℕ) (name : Text)
    → SamePaths es es'
    → find_child f es' c name ≡ find_child f es c name
unfolding find_child
find_child-SamePaths zero es es' c name h = refl
find_child-SamePaths (suc f) es es' none name h = refl
find_child-SamePaths (suc f) es es' (some i) name h =
    ground (arith, h i, find_child-SamePaths f es es' (es i).next name h)

walk-SamePaths :
    (f : ℕ) (es es' : ℕ → Entry) (dir : ℕ) (t : Option Text × Option Text)
    → SamePaths es es'
    → walk f es' dir t ≡ walk f es dir t
unfolding walk
walk-SamePaths zero es es' dir t h = refl
walk-SamePaths (suc f) es es' dir (none, saved) h = refl
walk-SamePaths (suc f) es es' dir (some c, saved) h =
    ap₂ proceed
      (ap (λ k. find_child sibling_fuel es' k c) (h dir).2
        ∙ find_child-SamePaths sibling_fuel es es' (es dir).children c h)
      (fun_ext λ i. walk-SamePaths f es es' i (strtok none slash saved) h)

-- A state that differs from `s` only in what no search reads.
pub record SameTree (s s' : State) : Type 0 where
  pub paths : SamePaths s.entries s'.entries
  pub same_root : s'.root ≡ s.root
  pub same_current : s'.current_dir ≡ s.current_dir

settle-same :
    (o : Option (Option ℕ)) (s s' : State) (r : Option ℕ)
    → settle o s ≡ ok r s
    → settle o s' ≡ ok r s'
settle-same none s s' r e = absurd (ground arith)
settle-same (some q) s s' r e = ground arith

module _ (s s' : State) (r : Option ℕ) (same : SameTree s s') where
  search-SameTree :
      (dir : ℕ) (rest : Text) → search (dir, rest) s ≡ ok r s → search (dir, rest) s' ≡ ok r s'
  unfolding search
  search-SameTree dir rest e = elim (Bool-cases (ltb max_path (strlen rest + 1))) [
    | inl long ↦ absurd (let q : fault ≡ ok r s = sym (rw long refl) ∙ e in ground arith)
    | inr fits ↦
        let f = strlen rest + 2 in
        let t = strtok (some rest) slash none in
        let q : settle (walk f s.entries dir t) s ≡ ok r s = sym (rw fits refl) ∙ e in
        rw (fits, walk-SamePaths f s.entries s'.entries dir t same.paths)
          (settle-same (walk f s.entries dir t) s s' r q)
  ]

  or_root-same : (o : Option ℕ) → or_root o s' ≡ or_root o s
  or_root-same none = same.same_root
  or_root-same (some i) = refl

  above-same :
      or_root (s'.entries s'.current_dir).parent s' ≡ or_root (s.entries s.current_dir).parent s
  above-same =
      ap (λ (k : ℕ). or_root (s'.entries k).parent s') same.same_current
      ∙ ap (λ (o : Option ℕ). or_root o s') (same.paths s.current_dir).3
      ∙ or_root-same (s.entries s.current_dir).parent

  answer : (o : Option ℕ) → ok o s ≡ ok r s → ok o s' ≡ ok r s'
  answer o e = ground arith

  start-SameTree : (path : Text) → start path s' ≡ start path s
  unfolding start
  start-SameTree [] = rw same.same_current refl
  start-SameTree (c ∷ path) = rw (same.same_current, same.same_root) refl

  pub find_file-SameTree : (path : Text) → find_file path s ≡ ok r s → find_file path s' ≡ ok r s'
  unfolding find_file
  find_file-SameTree path e = elim (Bool-cases (same_text path slash)) [
    | inl a ↦
        rw a (
          ap (λ (k : ℕ). ok (some k) s') same.same_root
          ∙ answer (some s.root) (sym (rw a refl) ∙ e))
    | inr n ↦ elim (Bool-cases (same_text path (b'.' ∷ []))) [
      | inl a ↦
          rw (n, a)
            (ap (λ (k : ℕ). ok (some k) s') same.same_current
              ∙ answer (some s.current_dir) (sym (rw (n, a) refl) ∙ e))
      | inr m ↦ elim (Bool-cases (same_text path (b'.' ∷ b'.' ∷ []))) [
        | inl a ↦
            rw (n, m, a)
              (ap (λ (k : ℕ). ok (some k) s') above-same
                ∙ answer (some (or_root (s.entries s.current_dir).parent s))
                    (sym (rw (n, m, a) refl) ∙ e))
        | inr o ↦
            let q : search (start path s) s ≡ ok r s = sym (rw (n, m, o) refl) ∙ e in
            rw (n, m, o, start-SameTree path) (search-SameTree (start path s).0 (start path s).1 q)
      ]
    ]
  ]
