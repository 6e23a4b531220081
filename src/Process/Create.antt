-- ===== src/Process/Create.antt =====
-- `process_create` on every path.
use pine_os.Base.{
  ℕ, ◌+◌, ◌≡◌, ◌≢◌, ◌==◌, ◌⊎◌, inl, inr, refl, ap, ◌∙◌, sym, some, [], ◌∷◌, ◌++◌, add32, Bool-cases,
  arith,
}
use pine_os.Memory.{Heap, header, memory_alloc, memory_free}
use pine_os.Memory.Inv.{IsValid}
use pine_os.Memory.Alloc.{memory_alloc-Answer, memory_alloc-IsValid}
use pine_os.Memory.Free.{memory_free-memory_alloc}
use pine_os.Process.{Sched, process_size, new_process, give_up, process_create}

-- What a call may leave: null and the state of before, or a process at the end of the list.
abbrev pub Created : ℕ → ℕ → Sched → ℕ → Sched → Type 0
Created entry size s p s' =
    ((p ≡ 0) × (s' ≡ s))
    ⊎ ((p ≢ 0)
        × ((stack : ℕ) × (stack ≢ 0)
            × (s'.list ≡ s.list ++ (new_process p s.next_pid stack size entry ∷ [])))
        × (s'.next_pid ≡ add32 s.next_pid 1)
        × (s'.current ≡ s.current)
        × IsValid s'.heap)

-- a null pointer comes with an unchanged heap
failed : (n : ℕ) (h : Heap) → IsValid h → (memory_alloc n h).0 ≡ 0 → (memory_alloc n h).1 ≡ h
failed n h v e = elim (memory_alloc-Answer n h v) [
  | inl (q, _) ↦ ap (λ (r : ℕ × Heap). r.1) q
  | inr (c, q, _, _) ↦
      let z : c.addr + header ≡ 0 = sym (ap (λ (r : ℕ × Heap). r.0) q) ∙ e in absurd (omega arith)
]

-- On a valid heap `process_create` frees no wild pointer, and either returns null with the whole
-- state as it was, the allocator's included, or a process that is ready, has the next pid, and
-- stands at the end of the list; the heap stays valid.
pub process_create-Created :
    (entry size : ℕ) (s : Sched)
    → IsValid s.heap
    → (p : ℕ) × (s' : Sched) × (process_create entry size s ≡ some (p, s'))
      × Created entry size s p s'
unfolding process_create give_up
process_create-Created entry size s v =
    elim (Bool-cases ((memory_alloc process_size s.heap).0 == 0)) [
      | inl e ↦ (
        0,
        s,
        rw e (
            ap (λ (h : Heap). some (0, record s { heap = h }))
              (failed process_size s.heap v (ground arith))),
        inl (refl, refl),
      )
      | inr e ↦
          let (p, h) = memory_alloc process_size s.heap in
          elim (Bool-cases ((memory_alloc size h).0 == 0)) [
            | inl f ↦ (
              0,
              s,
              rw (e, f)
                  (ap (λ (g : Heap). give_up p s (memory_free p g))
                      (failed size h (memory_alloc-IsValid process_size s.heap v) (ground arith))
                    ∙ ap (give_up p s)
                        (memory_free-memory_alloc process_size s.heap v (ground arith))),
              inl (refl, refl),
            )
            | inr f ↦
                let (stack, h') = memory_alloc size h in
                (
                  p,
                  record s {
                    list = s.list ++ (new_process p s.next_pid stack size entry ∷ []);
                    next_pid = add32 s.next_pid 1;
                    heap = h';
                  },
                  rw (e, f) refl,
                  inr (
                    ground arith,
                    (stack, ground arith, refl),
                    refl,
                    refl,
                    memory_alloc-IsValid size h (memory_alloc-IsValid process_size s.heap v),
                  ),
                )
          ]
    ]
