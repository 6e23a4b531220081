-- ===== src/Ram.antt =====
-- Bytes at addresses, and the functions of kernel/memory.c and kernel/string.c that move them.
use pine_os.Base.{
  ℕ, zero, suc, ◌+◌, ◌-◌, ◌≤◌, ◌<◌, ◌≡◌, refl, ◌⊎◌, ◌&&◌, true, false, Option, none, some, List, [],
  ◌∷◌, ltb, leb, ◌==◌, if◌then◌else◌, ℤ, pos, sub_ℕ, arith, Option-cases, length, ◌++◌, ap, ◌∙◌,
}

abbrev pub Ram : Type 0
Ram = ℕ → ℕ

unfoldable pub poke : Ram → ℕ → ℕ → Ram
poke m p v a = if a == p then v else m a

-- `for (i = 0; i < size; i++) d[i] = s[i]`, with the rounds that are left
unfoldable pub memory_copy : Ram → (dest src size : ℕ) → Ram
memory_copy m dest src zero = m
memory_copy m dest src (suc n) = memory_copy (poke m dest (m src)) (dest + 1) (src + 1) n

unfoldable pub memory_set : Ram → (dest value size : ℕ) → Ram
memory_set m dest value zero = m
memory_set m dest value (suc n) = memory_set (poke m dest value) (dest + 1) value n

unfoldable pub memory_compare : Ram → (p1 p2 n : ℕ) → ℤ
memory_compare m p1 p2 zero = pos 0
memory_compare m p1 p2 (suc n) =
    if m p1 == m p2 then memory_compare m (p1 + 1) (p2 + 1) n else sub_ℕ (m p1) (m p2)

-- The bytes of a text and no NUL, as `memory_copy` writes them from a C string.
unfoldable pub put_bytes : Ram → ℕ → List ℕ → Ram
put_bytes m p [] = m
put_bytes m p (c ∷ s) = put_bytes (poke m p c) (p + 1) s

-- `strcpy(dest, src)`
unfoldable pub strcpy : Ram → ℕ → List ℕ → Ram
strcpy m p [] = poke m p 0
strcpy m p (c ∷ s) = strcpy (poke m p c) (p + 1) s

-- The C string at `p`; `none` when no NUL follows within the fuel.
unfoldable pub text_at : ℕ → Ram → ℕ → Option (List ℕ)
text_at zero m p = none
text_at (suc f) m p = elim (m p == 0) [
  | true ↦ some []
  | false ↦ elim (text_at f m (p + 1)) [ none ↦ none | some s ↦ some (m p ∷ s) ]
]

-- The end of the string at `p`: `while (*dest) dest++`.
unfoldable pub end_at : ℕ → Ram → ℕ → Option ℕ
end_at zero m p = none
end_at (suc f) m p = elim (m p == 0) [ true ↦ some p | false ↦ end_at f m (p + 1) ]

-- `strcat(dest, src)`
unfoldable pub strcat : ℕ → Ram → ℕ → List ℕ → Option Ram
strcat f m p s = elim (end_at f m p) [ none ↦ none | some q ↦ some (strcpy m q s) ]

-- `memory_copy` between ranges of which the source is not overwritten ahead of the copy: the
-- destination holds the source's bytes, and every other address is unchanged.
pub memory_copy_lem :
    (m : Ram) (dest src n a : ℕ)
    → (dest ≤ src) ⊎ (src + n ≤ dest)
    → memory_copy m dest src n a
      ≡ (if leb dest a && ltb a (dest + n) then m (src + (a - dest)) else m a)
unfolding memory_copy poke
memory_copy_lem m dest src zero a h = ground arith
memory_copy_lem m dest src (suc n) a h =
    ground (arith, memory_copy_lem (poke m dest (m src)) (dest + 1) (src + 1) n a, aim)
  where
    aim : dest < a → src + 1 + (a - (dest + 1)) ≡ src + (a - dest)
    aim lt = omega arith

-- `memory_set` writes the value over the range and nothing else.
pub memory_set_lem :
    (m : Ram) (dest v n a : ℕ)
    → memory_set m dest v n a ≡ (if leb dest a && ltb a (dest + n) then v else m a)
unfolding memory_set poke
memory_set_lem m dest v zero a = ground arith
memory_set_lem m dest v (suc n) a = ground (arith, memory_set_lem (poke m dest v) (dest + 1) v n a)

pub strcpy-below : (m : Ram) (p : ℕ) (s : List ℕ) (a : ℕ) → a < p → strcpy m p s a ≡ m a
unfolding strcpy poke
strcpy-below m p [] a lt = ground arith
strcpy-below m p (c ∷ s) a lt = ground (arith, strcpy-below (poke m p c) (p + 1) s a)

-- no NUL among the bytes
abbrev pub NoNul : List ℕ → Type 0
NoNul [] = Unit
NoNul (c ∷ s) = (0 < c) × NoNul s

-- A string that `strcpy` wrote reads back, whatever the memory held, when the fuel covers the text
-- and its NUL.
pub text_at-strcpy :
    (f : ℕ) (m : Ram) (p : ℕ) (s : List ℕ)
    → NoNul s
    → length s < f
    → text_at f (strcpy m p s) p ≡ some s
unfolding text_at strcpy poke
text_at-strcpy zero m p s h lt = absurd (omega arith)
text_at-strcpy (suc f) m p [] h lt = ground arith
text_at-strcpy (suc f) m p (c ∷ s) h lt =
    ground
      (arith, text_at-strcpy f (poke m p c) (p + 1) s h.1, strcpy-below (poke m p c) (p + 1) s p)

end_at-text_at :
    (f : ℕ) (m : Ram) (p : ℕ) (t : List ℕ)
    → text_at f m p ≡ some t
    → end_at f m p ≡ some (p + length t)
unfolding text_at end_at
end_at-text_at zero m p t e = absurd (ground arith)
end_at-text_at (suc f) m p [] e = ground (arith, Option-cases (text_at f m (p + 1)))
end_at-text_at (suc f) m p (c ∷ t) e =
    ground (arith, end_at-text_at f m (p + 1) t, Option-cases (text_at f m (p + 1)))

text_at-past :
    (f g : ℕ) (m : Ram) (p q : ℕ) (t s : List ℕ)
    → NoNul s
    → text_at f m p ≡ some t
    → q ≡ p + length t
    → f + length s ≤ g
    → text_at g (strcpy m q s) p ≡ some (t ++ s)
unfolding text_at
text_at-past zero g m p q t s h e at le = absurd (ground arith)
text_at-past (suc f) zero m p q t s h e at le = absurd (omega arith)
text_at-past (suc f) (suc g) m p q [] s h e at le =
    let same : p ≡ q = omega arith in rw same (text_at-strcpy (suc g) m q s h (omega arith))
text_at-past (suc f) (suc g) m p q (c ∷ t) s h e at le = ground (
  arith,
  text_at-past f g m (p + 1) q t s h,
  strcpy-below m q s p,
  Option-cases (text_at f m (p + 1)),
)

-- `strcat` behind a string of `t` makes the concatenation: it copies the text to the NUL of `t`, and
-- writes nothing else.
pub text_at-strcat :
    (f : ℕ) (m : Ram) (p : ℕ) (t s : List ℕ)
    → NoNul s
    → text_at f m p ≡ some t
    → (m' : Ram) × (strcat f m p s ≡ some m')
      × (text_at (f + length s) m' p ≡ some (t ++ s))
      × (m' ≡ strcpy m (p + length t) s)
unfolding strcat
text_at-strcat f m p t s h e = (
  strcpy m (p + length t) s,
  rw (end_at-text_at f m p t e, strcat),
  text_at-past f (f + length s) m p (p + length t) t s h e (omega arith) (omega arith),
  refl,
)

-- The copy of the bytes and the NUL behind them, as `strcpy` makes it.
pub put_bytes-strcpy :
    (m : Ram) (p : ℕ) (t : List ℕ) → poke (put_bytes m p t) (p + length t) 0 ≡ strcpy m p t
unfolding put_bytes strcpy
put_bytes-strcpy m p [] = ap (λ (q : ℕ). poke m q 0) (omega arith)
put_bytes-strcpy m p (c ∷ t) =
    ap (λ (q : ℕ). poke (put_bytes (poke m p c) (p + 1) t) q 0) (omega arith)
    ∙ put_bytes-strcpy (poke m p c) (p + 1) t

-- `strcpy` writes the text and its NUL and nothing else.
pub strcpy-above : (m : Ram) (p : ℕ) (s : List ℕ) (a : ℕ) → p + length s < a → strcpy m p s a ≡ m a
unfolding strcpy poke
strcpy-above m p [] a lt = ground arith
strcpy-above m p (c ∷ s) a lt = ground (arith, strcpy-above (poke m p c) (p + 1) s a)
