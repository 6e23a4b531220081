-- ===== src/User/Programs.antt =====
-- Loading and removing a program: what the table and the memory are afterwards.
use pine_os.Base.{
  ℕ, zero, suc, ◌≤◌, ◌<◌, ◌≡◌, ◌≢◌, refl, ap, ◌∙◌, true, false, none, some, List, [], ◌∷◌, inl, inr,
  Bool-cases, arith, get_elem?, set, get_elem?-set_self, ℤ, pos, negsuc, add32, sub32,
  if◌then◌else◌, ◌&&◌, Option-cases, subst, ltb, ◌==◌, ◌^◌,
}
use pine_os.CString.{Text, strlen, strcmp}
use pine_os.CString.Compare.{IsText, strcmp_iff}
use pine_os.Memory.{Heap, memory_alloc, memory_free, null}
use pine_os.Memory.Inv.{IsValid}
use pine_os.Memory.Free.{memory_free-memory_alloc}
use pine_os.Ram.{memory_copy}
use pine_os.Filesystem.Paths.{is_zero, same_text}
use pine_os.User.{
  Program, Users, print, load_message, remove_message, max_program_size, vacant, is_named, slot_of,
  user_find_program, free_slot, loaded, fill, load_at, load_new, user_load_program, vacate,
  remove_at, user_remove_program,
}
use pine_os.User.Table.{pointed-found, free_slot-free, slot_of-set_other, slot_of-set_self}

zero_of : (z : ℤ) → is_zero z ≡ true → z ≡ pos 0
zero_of (pos zero) e = refl
zero_of (pos (suc n)) e = absurd (ground arith)
zero_of (negsuc n) e = absurd (ground arith)

same_text_self : (t : Text) → IsText t → same_text t t ≡ true
unfolding same_text
same_text_self t q = rw ((strcmp_iff t t q q).1 refl) refl

eq_of_same_text : (s t : Text) → IsText s → IsText t → same_text s t ≡ true → s ≡ t
unfolding same_text
eq_of_same_text s t p q e = (strcmp_iff s t p q).0 (zero_of (strcmp s t) e)

-- What a load needs: code and a size in bounds, a name that fits and is not taken, a slot, memory.
pub record Fits (s : Users) (name : Text) (code size : ℕ) : Type 0 where
  pub has_code : code ≢ 0
  pub least : 0 < size
  pub most : size ≤ max_program_size
  pub short : strlen name ≤ 31
  pub new : user_find_program (some name) s ≡ none
  pub room : free_slot 0 s.programs ≢ none
  pub memory : (memory_alloc size s.heap).0 ≢ null

-- The state that a load leaves, where `i` is the slot.
abbrev pub with_program : ℕ → Text → (code size : ℕ) → Users → Users
with_program i name code size s =
    let (p, h) = memory_alloc size s.heap in
    print (load_message name size) (record s {
      programs = set s.programs i (loaded name p size);
      program_count = add32 s.program_count 1;
      heap = h;
      ram = memory_copy s.ram p code size;
    })

pub load-with_program :
    (s : Users) (name : Text) (code size i : ℕ)
    → Fits s name code size
    → free_slot 0 s.programs ≡ some i
    → user_load_program (some name) code size s ≡ some (pos 0, with_program i name code size s)
unfolding user_load_program load_new load_at fill user_find_program
load-with_program s name code size i f e =
    let a : (code == 0) ≡ false = ground (arith, f.has_code) in
    let b : (size == 0) ≡ false = ground (arith, f.least) in
    let c : ltb max_program_size size ≡ false = ground (arith, f.most) in
    let d : ((memory_alloc size s.heap).0 == 0) ≡ false = ground (arith, f.memory) in
    let g : ltb 31 (strlen name) ≡ false = ground (arith, f.short) in
    rw (a, b, c, f.new, e, d, g) refl

slot_of-loaded :
    (name other : Text) (l : List Program) (i p size : ℕ)
    → IsText name
    → IsText other
    → slot_of name 0 l ≡ none
    → free_slot 0 l ≡ some i
    → slot_of other 0 (set l i (loaded name p size))
      ≡ (if same_text name other then some i else slot_of other 0 l)
unfolding is_named
slot_of-loaded name other l i p size a b new free =
    let (k, q, at, inside, g, f) = free_slot-free l 0 i free in
    let same : i ≡ k = omega (arith, at) in
    rw same (elim (Bool-cases (same_text name other)) [
      | inl y ↦
          let e : name ≡ other = eq_of_same_text name other a b y in
          rw y (
            subst (λ t. slot_of t 0 (set l k (loaded name p size)) ≡ some k) e
              (slot_of-set_self name l 0 k (loaded name p size) new inside (same_text_self name a)
                ∙ ap some (omega arith)))
      | inr n ↦ rw n (
          slot_of-set_other other l 0 k q (loaded name p size) g
            (ap (λ b. b && same_text q.name other) f) n)
    ])

-- A load of a program that fits succeeds: the name is found from then on, at a slot with the
-- code's copy, the size and the entry point 0, and every other name is found where it was.
pub user_find_program-user_load_program :
    (s : Users) (name other : Text) (code size : ℕ)
    → IsText name
    → IsText other
    → Fits s name code size
    → (i : ℕ) × (s' : Users) × (user_load_program (some name) code size s ≡ some (pos 0, s'))
      × (get_elem? s'.programs i ≡ some (loaded name (memory_alloc size s.heap).0 size))
      × (user_find_program (some other) s'
          ≡ (if same_text name other then some i else user_find_program (some other) s))
unfolding user_find_program
user_find_program-user_load_program s name other code size a b f =
    elim (Option-cases (free_slot 0 s.programs)) [
      | inl e ↦ absurd (f.room e)
      | inr (i, e) ↦
          let (k, q, at, inside, g, u) = free_slot-free s.programs 0 i e in
          let p = (memory_alloc size s.heap).0 in
          (
            i,
            with_program i name code size s,
            load-with_program s name code size i f e,
            get_elem?-set_self s.programs i (loaded name p size) (omega (arith, at, inside)),
            slot_of-loaded name other s.programs i p size a b f.new e,
          )
    ]

set-set : (l : List Program) (i : ℕ) (p q : Program) → set (set l i p) i q ≡ set l i q
set-set [] i p q = refl
set-set (x ∷ l) zero p q = refl
set-set (x ∷ l) (suc i) p q = ap (λ l'. x ∷ l') (set-set l i p q)

slot_of-vacant :
    (other : Text) (l : List Program) (i : ℕ)
    → free_slot 0 l ≡ some i
    → slot_of other 0 (set l i vacant) ≡ slot_of other 0 l
unfolding is_named
slot_of-vacant other l i free =
    let (k, q, at, inside, g, f) = free_slot-free l 0 i free in
    let same : i ≡ k = omega (arith, at) in
    rw same
      (slot_of-set_other other l 0 k q vacant g (ap (λ b. b && same_text q.name other) f) refl)

-- The state that a removal leaves, where `i` is the slot and `h` the memory.
abbrev without_program : ℕ → Text → Heap → Users → Users
without_program i name h s = print (remove_message name) (record s {
  programs = set s.programs i vacant;
  program_count = sub32 s.program_count 1;
  heap = h;
})

remove-without_program :
    (s : Users) (name : Text) (i : ℕ) (q : Program) (h : Heap)
    → user_find_program (some name) s ≡ some i
    → get_elem? s.programs i ≡ some q
    → q.code ≢ 0
    → memory_free q.code s.heap ≡ some h
    → user_remove_program name s ≡ some (pos 0, without_program i name h s)
unfolding user_remove_program remove_at vacate
remove-without_program s name i q h found at some_code freed =
    let a : (q.code == 0) ≡ false = ground (arith, some_code) in
    rw (found, pointed-found s.programs i q at, a, freed) refl

-- A program that fits can be loaded and removed again, after which the memory's blocks, the
-- number of programs and what is found under any name are as before the load.
pub user_remove_program-user_load_program :
    (s : Users) (name other : Text) (code size : ℕ)
    → IsText name
    → IsValid s.heap
    → s.program_count < 2 ^ 32
    → Fits s name code size
    → (s1 : Users) × (s2 : Users) × (user_load_program (some name) code size s ≡ some (pos 0, s1))
      × (user_remove_program name s1 ≡ some (pos 0, s2))
      × (s2.heap ≡ s.heap)
      × (s2.program_count ≡ s.program_count)
      × (user_find_program (some other) s2 ≡ user_find_program (some other) s)
unfolding user_find_program
user_remove_program-user_load_program s name other code size a v c f =
    elim (Option-cases (free_slot 0 s.programs)) [
      | inl e ↦ absurd (f.room e)
      | inr (i, e) ↦
          let (k, q, at, inside, g, u) = free_slot-free s.programs 0 i e in
          let p = (memory_alloc size s.heap).0 in
          let s1 = with_program i name code size s in
          (
            s1,
            without_program i name s.heap s1,
            load-with_program s name code size i f e,
            remove-without_program s1 name i (loaded name p size) s.heap
                (slot_of-loaded name name s.programs i p size a a f.new e
                  ∙ ap (λ b. if b then some i else slot_of name 0 s.programs)
                      (same_text_self name a))
                (get_elem?-set_self s.programs i (loaded name p size) (omega (arith, at, inside)))
                f.memory (memory_free-memory_alloc size s.heap v f.memory),
            refl,
            omega (arith, c),
            ap (slot_of other 0) (set-set s.programs i (loaded name p size) vacant)
                ∙ slot_of-vacant other s.programs i e,
          )
    ]
