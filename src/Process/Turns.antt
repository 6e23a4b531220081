-- ===== src/Process/Turns.antt =====
-- The scheduler: one process runs at most, and turns are taken in order.
use pine_os.Base.{
  ℕ, ◌≡◌, ◌≢◌, ◌==◌, ◌⊎◌, inl, inr, refl, ap, ◌∙◌, sym, false, Option, none, some, Bool-cases,
  Option-cases, if◌then◌else◌, subst, arith,
}
use pine_os.Process.{
  Process, Sched, ready, running, find_process, set_state, first_ready, next_ready, hand_over,
  yield_from, process_yield, idle, dispatch, process_schedule,
}
use pine_os.Process.Order.{
  Apart, ReadyAt, turns, find-set_state_other, find-set_state_same, set_state-Apart,
  first_ready-ReadyAt, next_ready-turns, next_ready-ReadyAt,
}

-- The process that runs is the current one, and the current one is in the list.
pub record IsSingle (s : Sched) : Type 0 where
  pub apart : Apart s.list
  pub alone :
      (p : ℕ) (q : Process)
      → find_process p s.list ≡ some q
      → q.state ≡ running
      → s.current ≡ some p
  pub present :
      (c : ℕ)
      → s.current ≡ some c
      → (q : Process) × (find_process c s.list ≡ some q) × (q.state ≡ running)

module _ (s : Sched) (single : IsSingle s) where
  hand_over-IsSingle :
      (c n : ℕ) → s.current ≡ some c → n ≢ c → ReadyAt n s.list → IsSingle (hand_over c (some n) s)
  unfolding hand_over
  hand_over-IsSingle c n e ne (r, f, d) =
      let ne' : (n == c) ≡ false = ground arith in
      let l = set_state c ready s.list in
      rw ne' (record {
        apart = set_state-Apart n running l (set_state-Apart c ready s.list single.apart);
        alone = only;
        present = λ k k'.
            let same : k ≡ n = ground arith in
            rw same (
              record r { state = running },
              find-set_state_same n running l r (find-set_state_other c n ready s.list ne ∙ f),
              refl,
            );
      })
    where
      only :
          (p : ℕ) (q : Process)
          → find_process p (set_state n running (set_state c ready s.list)) ≡ some q
          → q.state ≡ running
          → some n ≡ some p
      only p q g w = elim (Bool-cases (p == n)) [
        | inl a ↦ ground arith
        | inr a ↦
            let g' =
              sym (find-set_state_other n p running (set_state c ready s.list) (ground arith))
              ∙ g in
            elim (Bool-cases (p == c)) [
              | inl b ↦
                  let (old, at, on) = single.present c e in
                  absurd (ground (arith, find-set_state_same c ready s.list old at))
              | inr b ↦
                  let at = sym (find-set_state_other c p ready s.list (ground arith)) ∙ g' in
                  absurd (ground (arith, single.alone p q at w))
            ]
      ]

  -- A yield keeps it so that one process runs at most, and that it is the current one.
  pub process_yield-IsSingle : IsSingle (process_yield s)
  unfolding process_yield yield_from hand_over
  process_yield-IsSingle = go s.current refl
    where
      go : (c : Option ℕ) → s.current ≡ c → IsSingle (yield_from c s)
      go none e = single
      go (some c) e = to c e (next_ready c s.list) refl
        where
          to :
              (c : ℕ)
              → s.current ≡ some c
              → (o : Option ℕ) → next_ready c s.list ≡ o
              → IsSingle (hand_over c o s)
          to c e none q = single
          to c e (some n) q = elim (Bool-cases (n == c)) [
            | inl a ↦ rw a single
            | inr a ↦
                hand_over-IsSingle c n e (ground arith)
                  (next_ready-ReadyAt c s.list n single.apart q)
          ]

  -- What a yield of the process `c` may leave: the same state, if no other process is ready; or the
  -- first ready one in the order of turns is the current process, `c` is ready, and every other
  -- process is as it was.
  abbrev pub Turn : ℕ → Sched → Type 0
  Turn c s' =
      ((first_ready (turns c s.list) ≡ none) × (s' ≡ s))
      ⊎ ((n : ℕ) × (first_ready (turns c s.list) ≡ some n)
          × (s'.current ≡ some n)
          × ReadyAt c s'.list
          × ((p : ℕ) → (p ≡ c) ⊎ (p ≡ n) ⊎ (find_process p s'.list ≡ find_process p s.list)))

  yielded :
      (c : ℕ)
      → s.current ≡ some c
      → (q : Process) → find_process c s.list ≡ some q
      → q.state ≡ running
      → (o : Option ℕ) → next_ready c s.list ≡ o
      → next_ready c s.list ≡ first_ready (turns c s.list)
      → Turn c (yield_from (some c) s)
  unfolding yield_from hand_over
  yielded c e q at on none o same = rw o (inl (sym same ∙ o, refl))
  yielded c e q at on (some n) o same =
      let (r, f, d) = next_ready-ReadyAt c s.list n single.apart o in
      let ne : (n == c) ≡ false = ground arith in
      rw (o, ne)
        (inr (
          n,
          sym same ∙ o,
          refl,
          (
            record q { state = ready },
            find-set_state_other n c running (set_state c ready s.list) (ground arith)
                ∙ find-set_state_same c ready s.list q at,
            refl,
          ),
          λ p. elim (Bool-cases (p == c)) [
            | inl pc ↦ inl (ground arith)
            | inr pc ↦ elim (Bool-cases (p == n)) [
              | inl pn ↦ inr (inl (ground arith))
              | inr pn ↦ inr (
                  inr (
                    find-set_state_other n p running (set_state c ready s.list) (ground arith)
                    ∙ find-set_state_other c p ready s.list (ground arith)))
            ]
          ],
        ))

  -- In a list with each process once, where the current process `c` and no other is marked as
  -- running, when `c` yields, the turn goes to the first process that is ready, looking
  -- from behind `c` to the end of the list and then from its start; `c` becomes ready, and no other
  -- process changes. Nothing changes if no other process is ready.
  pub process_yield-Turn : (c : ℕ) → s.current ≡ some c → Turn c (process_yield s)
  unfolding process_yield
  process_yield-Turn c e =
      let (q, at, on) = single.present c e in
      let next = next_ready-turns c s.list q at on in
      subst (λ o. Turn c (yield_from o s)) (sym e)
        (yielded c e q at on (next_ready c s.list) refl next)

  dispatch-IsSingle : (n : ℕ) → s.current ≡ none → ReadyAt n s.list → IsSingle (dispatch (some n) s)
  unfolding dispatch
  dispatch-IsSingle n e (r, f, d) = record {
    apart = set_state-Apart n running s.list single.apart;
    alone = only;
    present = λ k k'.
        let same : k ≡ n = ground arith in
        rw same (record r { state = running }, find-set_state_same n running s.list r f, refl);
  }
    where
      only :
          (p : ℕ) (q : Process)
          → find_process p (set_state n running s.list) ≡ some q
          → q.state ≡ running
          → some n ≡ some p
      only p q g w = elim (Bool-cases (p == n)) [
        | inl a ↦ ground arith
        | inr a ↦
            let g' = sym (find-set_state_other n p running s.list (ground arith)) ∙ g in
            absurd (ground (arith, single.alone p q g' w))
      ]

  -- Some process is the current one, or none is ready.
  abbrev pub Busy : Sched → Type 0
  Busy s' = ((c : ℕ) × (s'.current ≡ some c)) ⊎ (first_ready s'.list ≡ none)

  schedule_none : s.current ≡ none → process_schedule s ≡ dispatch (first_ready s.list) s
  unfolding process_schedule idle
  schedule_none e =
      ap (λ (o : Option ℕ). if idle o s.list then dispatch (first_ready s.list) s else s) e

  schedule_some : (c : ℕ) → s.current ≡ some c → process_schedule s ≡ s
  unfolding process_schedule idle
  schedule_some c e =
      let (q, at, on) = single.present c e in
      let busy : idle (some c) s.list ≡ false = ground arith in
      ap (λ (o : Option ℕ). if idle o s.list then dispatch (first_ready s.list) s else s) e
      ∙ rw busy refl

  dispatched :
      (o : Option ℕ)
      → first_ready s.list ≡ o
      → s.current ≡ none
      → IsSingle (dispatch o s) × Busy (dispatch o s)
  unfolding dispatch
  dispatched none f e = (single, inr f)
  dispatched (some n) f e =
      (dispatch-IsSingle n e (first_ready-ReadyAt s.list n single.apart f), inl (n, refl))

  -- After a call of the scheduler one process runs at most, and it is the current one; and there is
  -- a current process, or none is ready.
  process_schedule-IsSingle : IsSingle (process_schedule s) × Busy (process_schedule s)
  process_schedule-IsSingle = elim (Option-cases s.current) [
    | inl e ↦
        subst (λ (t : Sched). IsSingle t × Busy t) (sym (schedule_none e))
          (dispatched (first_ready s.list) refl e)
    | inr (c, e) ↦
        subst (λ (t : Sched). IsSingle t × Busy t) (sym (schedule_some c e)) (single, inl (c, e))
  ]
