-- ===== src/Process/Fair.antt =====
-- Round robin: a process that is ready gets its turn.
use pine_os.Base.{
  ℕ, zero, suc, ◌≡◌, ◌≢◌, ◌≤◌, ◌<◌, ◌==◌, ◌⊎◌, inl, inr, refl, ap, ◌∙◌, sym, Option, none, some,
  List, length, Bool-cases, ℕ_discrete, arith,
}
use pine_os.Process.{
  Process, Sched, ready, running, find_process, set_state, next_ready, hand_over, yield_from,
  process_yield,
}
use pine_os.Process.Order.{ReadyAt, next_ready-turns}
use pine_os.Process.Turns.{IsSingle, process_yield-Turn, process_yield-IsSingle}
use pine_os.Process.Places.{
  index, index_lt, index-set_state, length-set_state, index-injective, first_some, gap, distance,
  nearer,
}

-- A yield moves no process, and it goes to the next one that is ready.
hand_over-index :
    (c : ℕ) (o : Option ℕ) (s : Sched) (p : ℕ)
    → (index p (hand_over c o s).list ≡ index p s.list)
      × (length (hand_over c o s).list ≡ length s.list)
unfolding hand_over
hand_over-index c none s p = (refl, refl)
hand_over-index c (some n) s p = elim (Bool-cases (n == c)) [
  | inl y ↦ rw y (refl, refl)
  | inr k ↦
      let l = set_state c ready s.list in
      rw k (
        index-set_state p n running l ∙ index-set_state p c ready s.list,
        length-set_state n running l ∙ length-set_state c ready s.list,
      )
]

process_yield-index :
    (s : Sched) (p : ℕ)
    → (index p (process_yield s).list ≡ index p s.list)
      × (length (process_yield s).list ≡ length s.list)
unfolding process_yield
process_yield-index s p = go s.current
  where
    go :
        (o : Option ℕ)
        → (index p (yield_from o s).list ≡ index p s.list)
          × (length (yield_from o s).list ≡ length s.list)
    go none = unfold yield_from in (refl, refl)
    go (some c) = unfold yield_from in hand_over-index c (next_ready c s.list) s p

-- `n` yields, one after the other
abbrev pub yields : ℕ → Sched → Sched
yields zero s = s
yields (suc n) s = yields n (process_yield s)

next_some :
    (c p : ℕ) (l : List Process) (q : Process)
    → find_process p l ≡ some q
    → q.state ≡ ready
    → next_ready c l ≢ none
next_some c p l q f d e = first_some l p q (unfold next_ready in ground (arith, e)) f d

two_states : (k q : Process) → some k ≡ some q → k.state ≡ running → q.state ≢ ready
two_states k q e r d = ground (arith, e)

-- What a yield does to the current process and to another one that is ready.
step :
    (s : Sched) (single : IsSingle s) (c p : ℕ) (k q : Process)
    → s.current ≡ some c
    → find_process c s.list ≡ some k
    → k.state ≡ running
    → find_process p s.list ≡ some q
    → q.state ≡ ready
    → (n : ℕ) × (next_ready c s.list ≡ some n)
      × ((process_yield s).current ≡ some n)
      × ((n ≡ p) ⊎ (find_process p (process_yield s).list ≡ some q))
step s single c p k q e fc run fp d =
    let same = next_ready-turns c s.list k fc run in
    elim (process_yield-Turn s single c e) [
      | inl (idle, _) ↦ absurd (next_some c p s.list q fp d (same ∙ idle))
      | inr (n, first, cur, _, rest) ↦ elim (rest p) [
        | inl pc ↦
            absurd
              (two_states k q (sym fc ∙ ap (λ (a : ℕ). find_process a s.list) (sym pc) ∙ fp) run d)
        | inr (inl pn) ↦ (n, same ∙ first, cur, inl (sym pn))
        | inr (inr kept) ↦ (n, same ∙ first, cur, inr (kept ∙ fp))
      ]
    ]

gap_pos : (c p n : ℕ) → c < n → 0 < gap c p n
gap_pos c p n lt = ground arith

gap_lt : (c p n : ℕ) → c < n → p < n → c ≢ p → gap c p n < n
gap_lt c p n lt lt' ne = ground arith

-- Within so many yields as `p` is away.
reached :
    (m : ℕ) (s : Sched) (single : IsSingle s) (c p : ℕ) (q : Process)
    → s.current ≡ some c
    → find_process p s.list ≡ some q
    → q.state ≡ ready
    → distance c p s.list ≤ m
    → (j : ℕ) × (j ≤ m) × ((yields j s).current ≡ some p)
reached zero s single c p q e fp d le =
    let (k, fc, run) = single.present c e in
    absurd (
      omega
        (arith, gap_pos (index c s.list) (index p s.list) (length s.list) (index_lt c s.list k fc)))
reached (suc m) s single c p q e fp d le =
    let (k, fc, run) = single.present c e in
    let (n, next, cur, where_p) = step s single c p k q e fc run fp d in
    elim where_p [
      | inl np ↦ (1, omega arith, cur ∙ ap some np)
      | inr kept ↦ elim (ℕ_discrete n p) [
        | yes np ↦ (1, omega arith, cur ∙ ap some np)
        | no ne ↦
            let less = nearer c n p s.list k q single.apart fc fp d next ne in
            let (at_n, len) = process_yield-index s n in
            let (at_p, _) = process_yield-index s p in
            let same : distance n p (process_yield s).list ≡ distance n p s.list =
              rw (at_n, at_p, len) refl in
            let (j, le', there) =
              reached m (process_yield s) (process_yield-IsSingle s single) n p q cur kept d
                (omega arith) in
            (suc j, omega arith, there)
      ]
    ]

-- No process that is ready waits for ever: in a list with each process once, where the current
-- process and no other is marked as running, and if each one that gets the turn yields, a ready
-- process becomes the current one after fewer yields than there are processes.
pub process_yield-current :
    (s : Sched) (c p : ℕ)
    → IsSingle s
    → s.current ≡ some c
    → ReadyAt p s.list
    → (j : ℕ) × (j < length s.list) × ((yields j s).current ≡ some p)
process_yield-current s c p single e (q, fp, d) =
    let (k, fc, run) = single.present c e in
    let apart' : index c s.list ≢ index p s.list = λ same.
      two_states k q
        (sym fc
          ∙ ap (λ (a : ℕ). find_process a s.list) (index-injective c p s.list k q fc fp same)
          ∙ fp)
        run d in
    let far =
      gap_lt (index c s.list) (index p s.list) (length s.list) (index_lt c s.list k fc)
        (index_lt p s.list q fp) apart' in
    let (j, le, there) = reached (distance c p s.list) s single c p q e fp d (omega arith) in
    (j, omega arith, there)
