-- ===== src/Process/Places.antt =====
-- Places in the list of processes, and how far the turn is from each.
use pine_os.Base.{
  ℕ, suc, ◌+◌, ◌-◌, ◌≡◌, ◌≢◌, ◌≤◌, ◌<◌, ◌==◌, ◌⊎◌, inl, inr, refl, ap, ◌∙◌, sym, false, none, some,
  List, [], ◌∷◌, length, ltb, Bool-cases, Option-cases, if◌then◌else◌, dec_lt, arith,
}
use pine_os.Process.{Process, ready, find_process, set_state, after, first_ready, next_ready}
use pine_os.Process.Order.{Apart, first_ready-ReadyAt, after-ReadyAt, next_ready-ReadyAt}

-- where the process at `p` stands in the list
abbrev pub index : ℕ → List Process → ℕ
index p [] = 0
index p (q ∷ l) = if q.addr == p then 0 else suc (index p l)

pub index_lt :
    (p : ℕ) (l : List Process) (q : Process) → find_process p l ≡ some q → index p l < length l
unfolding find_process
index_lt p [] q e = absurd (ground arith)
index_lt p (r ∷ l) q e = ground (arith, index_lt p l q)

pub index-set_state : (p a v : ℕ) (l : List Process) → index p (set_state a v l) ≡ index p l
unfolding set_state
index-set_state p a v [] = refl
index-set_state p a v (q ∷ l) = ground (arith, index-set_state p a v l)

pub length-set_state : (a v : ℕ) (l : List Process) → length (set_state a v l) ≡ length l
unfolding set_state
length-set_state a v [] = refl
length-set_state a v (q ∷ l) = ground (arith, length-set_state a v l)

pub index-injective :
    (a b : ℕ) (l : List Process) (q r : Process)
    → find_process a l ≡ some q
    → find_process b l ≡ some r
    → index a l ≡ index b l
    → a ≡ b
unfolding find_process
index-injective a b [] q r e f same = absurd (ground arith)
index-injective a b (p ∷ l) q r e f same = ground (arith, index-injective a b l q r)

-- The first ready process stands before all others.
first_le :
    (l : List Process) (n p : ℕ) (q : Process)
    → Apart l
    → first_ready l ≡ some n
    → find_process p l ≡ some q
    → q.state ≡ ready
    → index n l ≤ index p l
unfolding first_ready find_process
first_le [] n p q h e f d = absurd (ground arith)
first_le (r ∷ l) n p q h e f d = elim (Bool-cases (r.state == ready)) [
  | inl y ↦ ground arith
  | inr k ↦ ground (arith, first_le l n p q h.1)
]

pub first_some :
    (l : List Process) (p : ℕ) (q : Process)
    → first_ready l ≡ none
    → find_process p l ≡ some q
    → q.state ≢ ready
unfolding first_ready find_process
first_some [] p q e f d = ground arith
first_some (r ∷ l) p q e f d = ground (arith, first_some l p q)

clash : {x : Process} → none ≢ some x
clash e = ground (arith, e)

-- A process that is found in the rest of a list is not its first one.
apart :
    (r : Process) (n : ℕ) (l : List Process) (x : Process)
    → find_process r.addr l ≡ none
    → find_process n l ≡ some x
    → (r.addr == n) ≡ false
apart r n l x h f = elim (Bool-cases (r.addr == n)) [
  | inr k ↦ k
  | inl y ↦
      let same : r.addr ≡ n = ground arith in
      absurd (clash (sym h ∙ ap (λ (m : ℕ). find_process m l) same ∙ f))
]

-- The first ready process behind the one at `c` stands behind it, and before the other ready ones.
after_lt :
    (c : ℕ) (l : List Process) (n : ℕ)
    → Apart l
    → first_ready (after c l) ≡ some n
    → index c l < index n l
unfolding after
after_lt c [] n h e = absurd (unfold first_ready in ground arith)
after_lt c (r ∷ l) n h e = elim (Bool-cases (r.addr == c)) [
  | inl y ↦
      let (x, f, d) = first_ready-ReadyAt l n h.1 (ground arith) in
      ground (arith, apart r n l x h.0 f)
  | inr k ↦
      let behind : first_ready (after c l) ≡ some n = ground arith in
      let (x, f, d) = after-ReadyAt c l n h.1 behind in
      ground (arith, apart r n l x h.0 f, after_lt c l n h.1 behind)
]

after_le :
    (c : ℕ) (l : List Process) (n p : ℕ) (q : Process)
    → Apart l
    → first_ready (after c l) ≡ some n
    → find_process p l ≡ some q
    → q.state ≡ ready
    → index c l < index p l
    → index n l ≤ index p l
unfolding after find_process
after_le c [] n p q h e f d lt = absurd (ground arith)
after_le c (r ∷ l) n p q h e f d lt = elim (Bool-cases (r.addr == c)) [
  | inl y ↦ elim (Bool-cases (r.addr == p)) [
    | inl x ↦ ground arith
    | inr x ↦ ground (arith, first_le l n p q h.1)
  ]
  | inr k ↦ ground (arith, after_le c l n p q h.1)
]

after-none :
    (c : ℕ) (l : List Process) (p : ℕ) (q : Process)
    → first_ready (after c l) ≡ none
    → find_process p l ≡ some q
    → q.state ≡ ready
    → index p l ≤ index c l
unfolding after find_process
after-none c [] p q e f d = absurd (ground arith)
after-none c (r ∷ l) p q e f d = elim (Bool-cases (r.addr == c)) [
  | inl y ↦ elim (Bool-cases (r.addr == p)) [
    | inl x ↦ ground arith
    | inr x ↦ absurd (first_some l p q (ground arith) (ground arith) d)
  ]
  | inr k ↦ ground (arith, after-none c l p q)
]

-- How many places behind the one at place `c` stands place `p`, around the end of a list of `n`.
abbrev pub gap : ℕ → ℕ → ℕ → ℕ
gap c p n = if ltb c p then p - c else p + n - c

gap_after : (c m p n : ℕ) → c < m → (p ≤ c) ⊎ (m ≤ p) → m ≢ p → m < n → gap m p n < gap c p n
gap_after c m p n lt (inl le) ne lt' = ground arith
gap_after c m p n lt (inr le) ne lt' = ground arith

gap_around : (c m p n : ℕ) → p ≤ c → m ≤ p → m ≢ p → c < n → gap m p n < gap c p n
gap_around c m p n le le' ne lt = ground arith

abbrev pub distance : ℕ → ℕ → List Process → ℕ
distance c p l = gap (index c l) (index p l) (length l)

-- If the turn goes to another process, it comes nearer to the one at `p`.
pub nearer :
    (c n p : ℕ) (l : List Process) (k q : Process)
    → Apart l
    → find_process c l ≡ some k
    → find_process p l ≡ some q
    → q.state ≡ ready
    → next_ready c l ≡ some n
    → n ≢ p
    → distance n p l < distance c p l
nearer c n p l k q h fc fp d e ne =
    let (r, fn, dn) = next_ready-ReadyAt c l n h e in
    let apart' : index n l ≢ index p l = λ same. ne (index-injective n p l r q fn fp same) in
    elim (Option-cases (first_ready (after c l))) [
      | inl around ↦
          let first : first_ready l ≡ some n = unfold next_ready in ground (arith, e, around) in
          gap_around (index c l) (index n l) (index p l) (length l) (after-none c l p q around fp d)
            (first_le l n p q h first fp d) apart' (index_lt c l k fc)
      | inr (m, found) ↦
          let first : first_ready (after c l) ≡ some n =
            unfold next_ready in ground (arith, e, found) in
          let order : (index p l ≤ index c l) ⊎ (index n l ≤ index p l) =
            elim (dec_lt (index c l) (index p l)) [
              | yes lt ↦ inr (after_le c l n p q h first fp d lt)
              | no ge ↦ inl (omega arith)
            ] in
          gap_after (index c l) (index n l) (index p l) (length l) (after_lt c l n h first) order
            apart' (index_lt n l r fn)
    ]
