-- ===== src/Shell/Line.antt =====
-- The line editor passes on short lines of printable characters only.
use pine_os.Base.{
  ℕ, ◌+◌, ◌-◌, ◌≡◌, ◌≤◌, refl, ap, ◌∙◌, ◌&&◌, ◌||◌, inl, inr, List, [], ◌∷◌, ◌++◌, ltb, leb, ◌==◌,
  length, Bool-cases, arith,
}
use pine_os.CString.{Text}
use pine_os.Machine.{State, Run, ok, fault, out_of_fuel, Cmd, pure, and_then, puts, say, ◌>>◌}
use pine_os.Shell.{drop_last, key, keys}

abbrev pub Printable : Text → Type 0
Printable [] = Unit
Printable (c ∷ t) = (32 ≤ c) × (c ≤ 126) × Printable t

-- at most 255 bytes, all of them printable
pub record IsLine (t : Text) : Type 0 where
  pub fits : length t ≤ 255
  pub printable : Printable t

Printable-append : (t : Text) (c : ℕ) → Printable t → 32 ≤ c → c ≤ 126 → Printable (t ++ (c ∷ []))
Printable-append [] c h a b = (a, b, tt)
Printable-append (d ∷ t) c h a b = (h.0, h.1, Printable-append t c h.2 a b)

length-push : (t : Text) (c : ℕ) → length (t ++ (c ∷ [])) ≡ length t + 1
length-push [] c = omega arith
length-push (d ∷ t) c = omega (arith, length-push t c)

length-drop_last : (t : Text) → length (drop_last t) ≤ length t - 1
unfolding drop_last
length-drop_last [] = omega arith
length-drop_last (c ∷ []) = omega arith
length-drop_last (c ∷ d ∷ t) = omega (arith, length-drop_last (d ∷ t))

drop_last-IsLine : (t : Text) → IsLine t → IsLine (drop_last t)
unfolding drop_last
drop_last-IsLine [] h = h
drop_last-IsLine (c ∷ []) h = record { fits = omega arith; printable = tt }
drop_last-IsLine (c ∷ d ∷ t) h =
    let short : length t + 1 ≤ 255 = omega (arith, h.fits) in
    let r = drop_last-IsLine (d ∷ t) (record { fits = omega arith; printable = h.printable.2 }) in
    record {
      fits = omega (arith, length-drop_last (d ∷ t));
      printable = (h.printable.0, h.printable.1, r.printable);
    }

-- The two shells do the same with every line.
abbrev pub Agree : (Text → Cmd (Unit {0})) → (Text → Cmd (Unit {0})) → Type 0
Agree run run' = (t : Text) (s : State) → IsLine t → run t s ≡ run' t s

module _ (run run' : Text → Cmd (Unit {0})) (agree : Agree run run') where
  key-Agree :
      (c : ℕ) (typed : Text) (s : State) → IsLine typed → key run c typed s ≡ key run' c typed s
  unfolding key
  key-Agree c typed s line = elim (Bool-cases (c == 10 || c == 13)) [
    | inl e ↦
        rw e
          (ap (λ (r : Run (Unit {0})). and_then r (λ _. say "> " >> pure [])) (agree typed s line))
    | inr e ↦ rw e refl
  ]

  Continues : (Text → Cmd Text) → (Text → Cmd Text) → Type 0
  Continues k k' = (t : Text) (s : State) → IsLine t → k t s ≡ k' t s

  prompted :
      (r : Run (Unit {0})) (k k' : Text → Cmd Text)
      → Continues k k'
      → and_then (and_then r (λ _. say "> " >> pure [])) k
        ≡ and_then (and_then r (λ _. say "> " >> pure [])) k'
  unfolding Continues puts
  prompted (ok u s) k k' h = h [] _ (record { fits = omega arith; printable = tt })
  prompted fault k k' h = refl
  prompted out_of_fuel k k' h = refl

  -- what follows a character starts with a line again
  key-Continues :
      (c : ℕ) (typed : Text) (s : State) (k k' : Text → Cmd Text)
      → IsLine typed
      → Continues k k'
      → and_then (key run' c typed s) k ≡ and_then (key run' c typed s) k'
  unfolding key Continues puts
  key-Continues c typed s k k' line h = elim (Bool-cases (c == 10 || c == 13)) [
    | inl e ↦ rw e (prompted (run' typed s) k k' h)
    | inr e ↦ elim (Bool-cases (c == 8 && ltb 0 (length typed))) [
      | inl f ↦ rw (e, f) (h (drop_last typed) _ (drop_last-IsLine typed line))
      | inr f ↦ elim (Bool-cases (ltb (length typed) 255 && (leb 32 c && leb c 126))) [
        | inl g ↦
            rw (e, f, g)
              (h (typed ++ (c ∷ [])) _ (record {
                fits = ground (arith, length-push typed c);
                printable = Printable-append typed c line.printable (ground arith) (ground arith);
              }))
        | inr g ↦ rw (e, f, g) (h typed s line)
      ]
    ]
  ]

  -- Whatever characters the keyboard gives, the shell executes lines only: what a command does with
  -- a text of more than 255 bytes, or with a byte that is not printable, makes no difference to it.
  pub keys-Agree :
      (cs : List ℕ) (typed : Text) (s : State)
      → IsLine typed
      → keys run cs typed s ≡ keys run' cs typed s
  unfolding keys Continues
  keys-Agree [] typed s line = refl
  keys-Agree (c ∷ cs) typed s line =
      ap (λ (r : Run Text). and_then r (keys run cs)) (key-Agree c typed s line)
      ∙ key-Continues c typed s (keys run cs) (keys run' cs) line (keys-Agree cs)
