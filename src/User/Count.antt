-- ===== src/User/Count.antt =====
-- `program_count` is the number of slots in use, and the table keeps its slots.
use pine_os.Base.{
  ℕ, zero, suc, ◌≤◌, ◌≡◌, refl, ap, ◌∙◌, true, false, Option, none, some, List, [], ◌∷◌, inl, inr,
  Bool-cases, arith, length, get_elem?, set, subst, Option-cases, if◌then◌else◌, some-injective,
  ltb, ◌==◌, ◌||◌, ℤ,
}
use pine_os.CString.{Text, strlen}
use pine_os.Memory.{Heap, memory_alloc, memory_free}
use pine_os.User.{
  Program, Users, max_user_programs, max_program_size, clear_programs, slot_of, free_slot, fill,
  load_at, load_new, user_find_program, user_load_program, vacant, loaded, vacate, remove_at,
  pointed, user_remove_program,
}
use pine_os.User.Table.{free_slot-free, slot_of-used, pointed-found}

abbrev pub count_used : List Program → ℕ
count_used [] = 0
count_used (p ∷ l) = let n = count_used l in if p.used then suc n else n

count_used-fill :
    (l : List Program) (i : ℕ) (q p : Program)
    → get_elem? l i ≡ some q
    → q.used ≡ false
    → p.used ≡ true
    → count_used (set l i p) ≡ suc (count_used l)
count_used-fill [] i q p e u w = absurd (ground arith)
count_used-fill (x ∷ l) zero q p e u w =
    let f : x.used ≡ false = ap (λ (r : Program). r.used) (some-injective x q e) ∙ u in ground arith
count_used-fill (x ∷ l) (suc i) q p e u w = ground (arith, count_used-fill l i q p e u w)

count_used-empty :
    (l : List Program) (i : ℕ) (q p : Program)
    → get_elem? l i ≡ some q
    → q.used ≡ true
    → p.used ≡ false
    → suc (count_used (set l i p)) ≡ count_used l
count_used-empty [] i q p e u w = absurd (ground arith)
count_used-empty (x ∷ l) zero q p e u w =
    let f : x.used ≡ true = ap (λ (r : Program). r.used) (some-injective x q e) ∙ u in ground arith
count_used-empty (x ∷ l) (suc i) q p e u w = ground (arith, count_used-empty l i q p e u w)

length-set : (l : List Program) (i : ℕ) (p : Program) → length (set l i p) ≡ length l
length-set [] i p = refl
length-set (x ∷ l) zero p = refl
length-set (x ∷ l) (suc i) p = ap suc (length-set l i p)

count_used-length : (l : List Program) → count_used l ≤ length l
count_used-length [] = omega arith
count_used-length (x ∷ l) = ground (arith, count_used-length l)

-- The table has all its slots, and `program_count` is the number of those in use.
pub record IsTable (s : Users) : Type 0 where
  pub slots : length s.programs ≡ max_user_programs
  pub counted : s.program_count ≡ count_used s.programs

-- A result, if there is one, has such a table.
abbrev pub Counted : Option (ℤ × Users) → Type 0
Counted none = Unit
Counted (some (z, s)) = IsTable s

module _ (s : Users) (t : IsTable s) (name : Text) (code size : ℕ) where
  fill-Counted :
      (h : Heap) (p i : ℕ) (q : Program)
      → get_elem? s.programs i ≡ some q
      → q.used ≡ false
      → Counted (fill i name p code size (record s { heap = h }))
  unfolding fill
  fill-Counted h p i q e u = elim (Bool-cases (ltb 31 (strlen name))) [
    | inl y ↦ rw y tt
    | inr n ↦ rw n (record {
      slots = length-set s.programs i (loaded name p size) ∙ t.slots;
      counted =
          let c = count_used-fill s.programs i q (loaded name p size) e u refl in
          omega (arith, c, t.counted, t.slots, count_used-length s.programs);
    })
  ]

  load_at-Counted :
      (o : Option ℕ) → free_slot 0 s.programs ≡ o → Counted (load_at o name code size s)
  unfolding load_at
  load_at-Counted none e = record { slots = t.slots; counted = t.counted }
  load_at-Counted (some i) e =
      let (k, q, at, inside, g, u) = free_slot-free s.programs 0 i e in
      let same : i ≡ k = omega (arith, at) in
      let (p, h) = memory_alloc size s.heap in
      elim (Bool-cases (p == 0)) [
        | inl y ↦ rw y (record { slots = t.slots; counted = t.counted })
        | inr n ↦ rw n (fill-Counted h p i q (ap (get_elem? s.programs) same ∙ g) u)
      ]

  load_new-Counted : (o : Option ℕ) → Counted (load_new o name code size s)
  unfolding load_new
  load_new-Counted none = load_at-Counted (free_slot 0 s.programs) refl
  load_new-Counted (some i) = record { slots = t.slots; counted = t.counted }

module _ (s : Users) (t : IsTable s) (name : Text) where
  user_load_program-Counted :
      (o : Option Text) (code size : ℕ) → Counted (user_load_program o code size s)
  unfolding user_load_program
  user_load_program-Counted none code size = record { slots = t.slots; counted = t.counted }
  user_load_program-Counted (some n) code size =
      elim (Bool-cases ((code == 0) || ((size == 0) || ltb max_program_size size))) [
        | inl y ↦ rw y (record { slots = t.slots; counted = t.counted })
        | inr k ↦ rw k (load_new-Counted s t n code size (user_find_program (some n) s))
      ]

  vacate-Counted :
      (h : Option Heap) (i : ℕ) (q : Program)
      → get_elem? s.programs i ≡ some q
      → q.used ≡ true
      → Counted (vacate h i name s)
  unfolding vacate
  vacate-Counted none i q e u = tt
  vacate-Counted (some h) i q e u = record {
    slots = length-set s.programs i vacant ∙ t.slots;
    counted =
        let c = count_used-empty s.programs i q vacant e u refl in
        omega (arith, c, t.counted, t.slots, count_used-length s.programs);
  }

  user_remove_program-Counted : Counted (user_remove_program name s)
  unfolding user_remove_program remove_at user_find_program pointed
  user_remove_program-Counted = elim (Option-cases (slot_of name 0 s.programs)) [
    | inl e ↦ rw e (record { slots = t.slots; counted = t.counted })
    | inr (i, e) ↦
        let (k, q, at, g, u) = slot_of-used name s.programs 0 i e in
        let same : i ≡ k = omega (arith, at) in
        let here : get_elem? s.programs i ≡ some q = ap (get_elem? s.programs) same ∙ g in
        rw (e, pointed-found s.programs i q here)
          (vacate-Counted (if q.code == 0 then some s.heap else memory_free q.code s.heap) i q here
            u)
  ]

-- The states that `user_init` and the calls after it lead to.
pub data Reach : Users → Type 0 where
  clear : (s : Users) → Reach (clear_programs s)
  load :
      {s s' : Users} (o : Option Text) (code size : ℕ) (z : ℤ)
      → Reach s
      → user_load_program o code size s ≡ some (z, s')
      → Reach s'
  remove :
      {s s' : Users} (name : Text) (z : ℤ)
      → Reach s
      → user_remove_program name s ≡ some (z, s')
      → Reach s'

-- After `user_init` has cleared the table, whatever programs are loaded and removed, with success
-- or not, the table has its 16 slots and `program_count` is the number of those in use.
pub Reach-IsTable : {s : Users} → Reach s → IsTable s
unfolding clear_programs
Reach-IsTable (clear s) = record { slots = refl; counted = refl }
Reach-IsTable (load {s = s} o code size z r e) =
    subst Counted e (user_load_program-Counted s (Reach-IsTable r) [] o code size)
Reach-IsTable (remove {s = s} name z r e) =
    subst Counted e (user_remove_program-Counted s (Reach-IsTable r) name)
