-- ===== src/Filesystem/Lookup.antt =====
-- `filesystem_find_file` always returns: no endless walk, no null pointer.
use pine_os.Base.{
  ℕ, zero, suc, ◌+◌, ◌≤◌, ◌<◌, ◌≡◌, refl, ap, ◌∙◌, inl, inr, true, false, Option, none, some, List,
  [], ◌∷◌, arith, length, ltb, Bool-cases, Option-cases, if◌then◌else◌,
}
use pine_os.CString.{Text, strlen, strtok}
use pine_os.CString.Progress.{left, left-strtok}
use pine_os.Machine.{Entry, State, ok}
use pine_os.Filesystem.Paths.{
  max_path, slash, same_text, find_child, sibling_fuel, proceed, walk, settle, start, search,
  or_root, find_file,
}
use pine_os.Filesystem.Tree.{Chain, has, IsTree}

-- The first of the entries with that name.
unfoldable pub first_named : (ℕ → Entry) → Text → List ℕ → Option ℕ
first_named es name [] = none
first_named es name (k ∷ ks) = if same_text (es k).name name then some k else first_named es name ks

pub find_child-first_named :
    (f : ℕ) (es : ℕ → Entry) (c : Option ℕ) (name : Text) (ks : List ℕ)
    → Chain es c ks
    → length ks < f
    → find_child f es c name ≡ some (first_named es name ks)
unfolding find_child first_named
find_child-first_named zero es c name ks h lt = absurd (omega arith)
find_child-first_named (suc f) es c name [] h lt = ground arith
find_child-first_named (suc f) es c name (k ∷ ks) h lt =
    rw h.0 (ground (arith, find_child-first_named f es (es k).next name ks h.1))

pub first_named-has :
    (es : ℕ → Entry) (name : Text) (ks : List ℕ) (k : ℕ)
    → first_named es name ks ≡ some k
    → has k ks ≡ true
unfolding first_named
first_named-has es name [] k e = absurd (ground arith)
first_named-has es name (j ∷ ks) k e = ground (arith, first_named-has es name ks k)

-- a result that is no entry of the table is null
abbrev pub Bounded : State → Option ℕ → Type 0
Bounded s none = Unit
Bounded s (some i) = i < s.next_entry

abbrev Enough : ℕ → Option Text × Option Text → Type 0
Enough f (none, saved) = 1 ≤ f
Enough f (some t, saved) = left saved + 2 ≤ f

next-Enough :
    (f : ℕ) (saved : Option Text) → left saved + 1 ≤ f → Enough f (strtok none slash saved)
next-Enough f saved le = go (strtok none slash saved) refl
  where
    go : (r : Option Text × Option Text) → strtok none slash saved ≡ r → Enough f r
    go (none, rest) e = omega arith
    go (some t, rest) e = omega (
      arith,
      ap (λ (r : Option Text × Option Text). left r.1) e,
      left-strtok saved slash t (ap (λ (r : Option Text × Option Text). r.0) e),
    )

module _ (s : State) (kids : ℕ → List ℕ) (tree : IsTree s kids) where
  walk-ok :
      (f dir : ℕ) (t : Option Text × Option Text)
      → dir < s.next_entry
      → Enough f t
      → (r : Option ℕ) × (walk f s.entries dir t ≡ some r) × Bounded s r
  unfolding walk
  walk-ok zero dir (none, saved) b e = absurd (omega arith)
  walk-ok zero dir (some c, saved) b e = absurd (omega arith)
  walk-ok (suc f) dir (none, saved) b e = (some dir, refl, b)
  walk-ok (suc f) dir (some c, saved) b e =
      let ks = kids dir in
      let found =
        find_child-first_named sibling_fuel s.entries (s.entries dir).children c ks
          (tree.chain dir b) (omega (arith, tree.short dir b, tree.room)) in
      elim (Option-cases (first_named s.entries c ks)) [
        | inl miss ↦ (none, ap (λ r. proceed r more) (found ∙ ap some miss), tt)
        | inr (i, hit) ↦
            let below = (tree.child dir i b (first_named-has s.entries c ks i hit)).bound in
            let (r, q, bd) =
              walk-ok f i (strtok none slash saved) below (next-Enough f saved (omega arith)) in
            (r, ap (λ r. proceed r more) (found ∙ ap some hit) ∙ q, bd)
      ]
    where
      more : ℕ → Option (Option ℕ)
      more i = walk f s.entries i (strtok none slash saved)

  pub start-Bounded : (path : Text) → (start path s).0 < s.next_entry
  unfolding start
  start-Bounded [] = tree.current_bound
  start-Bounded (c ∷ path) = ground (arith, tree.current_bound, tree.root_bound)

  pub strlen-start : (path : Text) → strlen (start path s).1 ≤ strlen path
  unfolding start strlen
  strlen-start [] = omega arith
  strlen-start (c ∷ path) = ground arith

  search-returns :
      (dir : ℕ) (rest : Text)
      → dir < s.next_entry
      → strlen rest < max_path
      → (r : Option ℕ) × (search (dir, rest) s ≡ ok r s) × Bounded s r
  unfolding search strtok
  search-returns dir rest b lt =
      let (r, q, bd) =
        walk-ok (strlen rest + 2) dir (strtok none slash (some rest)) b
          (next-Enough (strlen rest + 2) (some rest) (omega arith)) in
      let fits : ltb max_path (strlen rest + 1) ≡ false = ground arith in
      (r, rw fits (ap (λ x. settle x s) q), bd)

  -- On a well-formed tree a search for a path of at most 255 bytes returns, without a fault and
  -- within its fuel; it leaves the state as it is, and its result is null or the index of an entry
  -- of the table.
  pub find_file-returns :
      (path : Text)
      → strlen path < max_path
      → (r : Option ℕ) × (find_file path s ≡ ok r s) × Bounded s r
  unfolding find_file
  find_file-returns path lt = elim (Bool-cases (same_text path slash)) [
    | inl e ↦ (some s.root, rw e, tree.root_bound)
    | inr n ↦ elim (Bool-cases (same_text path (b'.' ∷ []))) [
      | inl e ↦ (some s.current_dir, rw (n, e), tree.current_bound)
      | inr m ↦ elim (Bool-cases (same_text path (b'.' ∷ b'.' ∷ []))) [
        | inl e ↦ (some (up (s.entries s.current_dir).parent), rw (n, m, e), up-bound _ refl)
        | inr o ↦
            let (r, q, bd) =
              search-returns (start path s).0 (start path s).1 (start-Bounded path)
                (omega (arith, strlen-start path)) in
            (r, rw (n, m, o) q, bd)
      ]
    ]
  ]
    where
      up : Option ℕ → ℕ
      up o = or_root o s

      up-bound : (o : Option ℕ) → (s.entries s.current_dir).parent ≡ o → up o < s.next_entry
      up-bound none e = tree.root_bound
      up-bound (some p) e = tree.parent_bound s.current_dir p tree.current_bound e
