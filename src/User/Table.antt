-- ===== src/User/Table.antt =====
-- The table of programs: the search for a name, and for a free slot, when one slot changes.
use pine_os.Base.{
  ℕ, zero, suc, ◌+◌, ◌<◌, ◌≡◌, refl, ap, ◌∙◌, true, false, Option, none, some, List, [], ◌∷◌, inl,
  inr, Bool-cases, arith, length, get_elem?, set, some-injective,
}
use pine_os.CString.{Text}
use pine_os.User.{Program, is_named, slot_of, free_slot, pointed}

-- The slot that `free_slot` finds is in the table, and not used.
pub free_slot-free :
    (l : List Program) (i j : ℕ)
    → free_slot i l ≡ some j
    → (k : ℕ) × (q : Program) × (j ≡ i + k)
      × (k < length l)
      × (get_elem? l k ≡ some q)
      × (q.used ≡ false)
unfolding free_slot
free_slot-free [] i j e = absurd (ground arith)
free_slot-free (p ∷ l) i j e = elim (Bool-cases p.used) [
  | inl u ↦
      let (k, q, a, b, g, f) = free_slot-free l (i + 1) j (ground arith) in
      (suc k, q, omega (arith, a), omega (arith, b), g, f)
  | inr n ↦ (0, p, ground arith, omega arith, refl, n)
]

-- A slot that is not of the name, before a change or after it, does not matter to the search.
pub slot_of-set_other :
    (name : Text) (l : List Program) (i k : ℕ) (q p : Program)
    → get_elem? l k ≡ some q
    → is_named name q ≡ false
    → is_named name p ≡ false
    → slot_of name i (set l k p) ≡ slot_of name i l
unfolding slot_of
slot_of-set_other name [] i k q p g a b = refl
slot_of-set_other name (x ∷ l) i zero q p g a b =
    let e : is_named name x ≡ false = ap (is_named name) (some-injective x q g) ∙ a in
    rw (e, b) refl
slot_of-set_other name (x ∷ l) i (suc k) q p g a b =
    rw (slot_of-set_other name l (i + 1) k q p g a b) refl

-- A name that no slot has is found where it is put.
pub slot_of-set_self :
    (name : Text) (l : List Program) (i k : ℕ) (p : Program)
    → slot_of name i l ≡ none
    → k < length l
    → is_named name p ≡ true
    → slot_of name i (set l k p) ≡ some (i + k)
unfolding slot_of
slot_of-set_self name [] i k p e h b = absurd (omega arith)
slot_of-set_self name (x ∷ l) i zero p e h b = rw b (ap some (omega arith))
slot_of-set_self name (x ∷ l) i (suc k) p e h b = elim (Bool-cases (is_named name x)) [
  | inl y ↦ absurd (ground arith)
  | inr n ↦
      rw n
        (slot_of-set_self name l (i + 1) k p (ground arith) (omega arith) b ∙ ap some (omega arith))
]

-- A name is found at a slot that is in use.
pub slot_of-used :
    (name : Text) (l : List Program) (i j : ℕ)
    → slot_of name i l ≡ some j
    → (k : ℕ) × (q : Program) × (j ≡ i + k) × (get_elem? l k ≡ some q) × (q.used ≡ true)
unfolding slot_of is_named
slot_of-used name [] i j e = absurd (ground arith)
slot_of-used name (p ∷ l) i j e = elim (Bool-cases (is_named name p)) [
  | inl y ↦ (0, p, ground arith, refl, ground arith)
  | inr n ↦
      let (k, q, a, g, f) = slot_of-used name l (i + 1) j (ground arith) in
      (suc k, q, omega (arith, a), g, f)
]

-- the program at a place, with the place
pub pointed-found :
    (l : List Program) (i : ℕ) (q : Program)
    → get_elem? l i ≡ some q
    → pointed (some i) l ≡ some (i, q)
unfolding pointed
pointed-found l i q e =
    ap
      (λ (o : Option Program). elim o as (λ _. Option (ℕ × Program)) [
        | none ↦ none
        | some r ↦ some (i, r)
      ])
      e
