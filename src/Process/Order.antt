-- ===== src/Process/Order.antt =====
-- Processes at addresses, and the order of turns.
use pine_os.Base.{
  ℕ, ◌≡◌, ◌≢◌, ◌==◌, inl, inr, refl, ap, ◌∙◌, sym, Option, none, some, List, [], ◌∷◌, ◌++◌,
  Bool-cases, Option-cases, if◌then◌else◌, arith,
}
use pine_os.Process.{
  Process, ready, running, find_process, set_state, after, first_ready, or_else, next_ready,
}

-- No two processes share an address.
abbrev pub Apart : List Process → Type 0
Apart [] = Unit
Apart (q ∷ l) = (find_process q.addr l ≡ none) × Apart l

pub find-set_state_other :
    (p a v : ℕ) (l : List Process) → a ≢ p → find_process a (set_state p v l) ≡ find_process a l
unfolding find_process set_state
find-set_state_other p a v [] ne = refl
find-set_state_other p a v (q ∷ l) ne = ground (arith, find-set_state_other p a v l)

pub find-set_state_same :
    (p v : ℕ) (l : List Process) (q : Process)
    → find_process p l ≡ some q
    → find_process p (set_state p v l) ≡ some (record q { state = v })
unfolding find_process set_state
find-set_state_same p v [] q e = absurd (ground arith)
find-set_state_same p v (r ∷ l) q e = ground (arith, find-set_state_same p v l q)

find-set_state-none :
    (p a v : ℕ) (l : List Process)
    → find_process a l ≡ none
    → find_process a (set_state p v l) ≡ none
unfolding find_process set_state
find-set_state-none p a v [] e = refl
find-set_state-none p a v (q ∷ l) e = ground (arith, find-set_state-none p a v l)

pub set_state-Apart : (p v : ℕ) (l : List Process) → Apart l → Apart (set_state p v l)
unfolding set_state
set_state-Apart p v [] h = tt
set_state-Apart p v (q ∷ l) h = elim (Bool-cases (q.addr == p)) [
  | inl e ↦ rw e h
  | inr e ↦ rw e (find-set_state-none p q.addr v l h.0, set_state-Apart p v l h.1)
]

-- a process at `n` that is ready
abbrev pub ReadyAt : ℕ → List Process → Type 0
ReadyAt n l = (q : Process) × (find_process n l ≡ some q) × (q.state ≡ ready)

pub first_ready-ReadyAt :
    (l : List Process) (n : ℕ) → Apart l → first_ready l ≡ some n → ReadyAt n l
unfolding first_ready find_process
first_ready-ReadyAt [] n h e = absurd (ground arith)
first_ready-ReadyAt (q ∷ l) n h e = elim (Bool-cases (q.state == ready)) [
  | inl a ↦ (q, ground arith, ground arith)
  | inr a ↦
      let (r, f, s) = first_ready-ReadyAt l n h.1 (ground arith) in (r, ground (arith, h.0, f), s)
]

unfoldable pub before : ℕ → List Process → List Process
before p [] = []
before p (q ∷ l) = if q.addr == p then [] else q ∷ before p l

-- The others in the order of their turns after the process at `c`.
unfoldable pub turns : ℕ → List Process → List Process
turns c l = after c l ++ before c l

first_ready-append :
    (l m : List Process) → first_ready (l ++ m) ≡ or_else (first_ready l) (first_ready m)
unfolding first_ready
first_ready-append [] m = refl
first_ready-append (q ∷ l) m = ground (arith, first_ready-append l m)

first_ready-split :
    (c : ℕ) (l : List Process) (q : Process)
    → find_process c l ≡ some q
    → q.state ≡ running
    → first_ready l ≡ or_else (first_ready (before c l)) (first_ready (after c l))
unfolding first_ready before after find_process
first_ready-split c [] q e r = absurd (ground arith)
first_ready-split c (p ∷ l) q e r = ground (arith, first_ready-split c l q)

or_else-again : (a b : Option ℕ) → or_else a (or_else b a) ≡ or_else a b
or_else-again none none = refl
or_else-again none (some n) = refl
or_else-again (some m) b = refl

pub next_ready-turns :
    (c : ℕ) (l : List Process) (q : Process)
    → find_process c l ≡ some q
    → q.state ≡ running
    → next_ready c l ≡ first_ready (turns c l)
unfolding next_ready turns
next_ready-turns c l q e r =
    ap (or_else (first_ready (after c l))) (first_ready-split c l q e r)
    ∙ or_else-again (first_ready (after c l)) (first_ready (before c l))
    ∙ sym (first_ready-append (after c l) (before c l))

pub after-ReadyAt :
    (c : ℕ) (l : List Process) (n : ℕ) → Apart l → first_ready (after c l) ≡ some n → ReadyAt n l
unfolding after find_process first_ready
after-ReadyAt c [] n h e = absurd (ground arith)
after-ReadyAt c (q ∷ l) n h e = elim (Bool-cases (q.addr == c)) [
  | inl a ↦
      let (r, f, s) = first_ready-ReadyAt l n h.1 (ground arith) in (r, ground (arith, h.0, f), s)
  | inr a ↦ let (r, f, s) = after-ReadyAt c l n h.1 (ground arith) in (r, ground (arith, h.0, f), s)
]

pub next_ready-ReadyAt :
    (c : ℕ) (l : List Process) (n : ℕ) → Apart l → next_ready c l ≡ some n → ReadyAt n l
unfolding next_ready
next_ready-ReadyAt c l n h e = elim (Option-cases (first_ready (after c l))) [
  | inl a ↦ first_ready-ReadyAt l n h (ground arith)
  | inr (m, a) ↦ after-ReadyAt c l n h (ground arith)
]
