-- ===== src/CString/Search.antt =====
-- `strchr`, `strrchr` and `strstr` find the first, the last and the first occurrence.

use pine_os.Base.{
  ℕ, ◌≡◌, ◌≢◌, ◌==◌, ◌⊎◌, inl, inr, refl, ap, ◌∙◌, true, Option, none, some, [], ◌∷◌, ◌++◌, arith,
  Bool-cases, Option-cases,
}
use pine_os.CString.{Text, strchr, strrchr, strrchr_from, strstr, strstr_scan, matches}

-- `c` does not occur.
abbrev pub Lacks : ℕ → Text → Type 0
Lacks c [] = Unit
Lacks c (a ∷ s) = (a ≢ c) × Lacks c s

-- `strchr` returns the text from the first `c` on, or null when there is none.
pub strchr-first :
    (s : Text) (c : ℕ)
    → ((strchr s c ≡ none) × Lacks c s)
      ⊎ ((before : Text) × (after : Text) × (strchr s c ≡ some (c ∷ after))
          × (s ≡ before ++ (c ∷ after))
          × Lacks c before)
unfolding strchr
strchr-first [] c = inl (refl, tt)
strchr-first (a ∷ s) c = elim (Bool-cases (a == c)) [
  | inl hit ↦ inr ([], s, ground arith, ground arith, tt)
  | inr miss ↦ elim (strchr-first s c) [
    | inl (e, l) ↦ inl (rw miss e, (ground arith, l))
    | inr (x, y, e, f, l) ↦ inr (a ∷ x, y, rw miss e, ap (λ (t : Text). a ∷ t) f, (ground arith, l))
  ]
]

-- What the scan of `strrchr` returns, `last` being the place found before.
LastOf : Text → ℕ → Option Text → Option Text → Type 0
LastOf s c last r =
    ((r ≡ last) × Lacks c s)
    ⊎ ((before : Text) × (after : Text) × (r ≡ some (c ∷ after))
        × (s ≡ before ++ (c ∷ after))
        × Lacks c after)

strrchr_from-last :
    (s : Text) (c : ℕ) (last : Option Text) → LastOf s c last (strrchr_from s c last)
unfolding strrchr_from LastOf
strrchr_from-last [] c last = inl (refl, tt)
strrchr_from-last (a ∷ s) c last = elim (Bool-cases (a == c)) [
  | inl hit ↦ rw hit (elim (strrchr_from-last s c (some (a ∷ s))) [
    | inl (e, l) ↦ inr ([], s, e ∙ ground arith, ground arith, l)
    | inr (x, y, e, f, l) ↦ inr (a ∷ x, y, e, ap (λ (t : Text). a ∷ t) f, l)
  ])
  | inr miss ↦ rw miss (elim (strrchr_from-last s c last) [
    | inl (e, l) ↦ inl (e, (ground arith, l))
    | inr (x, y, e, f, l) ↦ inr (a ∷ x, y, e, ap (λ (t : Text). a ∷ t) f, l)
  ])
]

-- `strrchr` returns the text from the last `c` on, or null when there is none.
strrchr-last :
    (s : Text) (c : ℕ)
    → ((strrchr s c ≡ none) × Lacks c s)
      ⊎ ((before : Text) × (after : Text) × (strrchr s c ≡ some (c ∷ after))
          × (s ≡ before ++ (c ∷ after))
          × Lacks c after)
unfolding strrchr LastOf
strrchr-last s c = strrchr_from-last s c none

matches-append : (h n : Text) → matches h n ≡ true → (rest : Text) × (h ≡ n ++ rest)
unfolding matches
matches-append h [] e = (h, refl)
matches-append [] (b ∷ n) e = absurd (ground arith)
matches-append (a ∷ h) (b ∷ n) e =
    let (rest, f) = matches-append h n (ground arith) in (rest, ground arith)

append-matches : (n rest : Text) → matches (n ++ rest) n ≡ true
unfolding matches
append-matches [] rest = refl
append-matches (b ∷ n) rest = ground (arith, append-matches n rest)

strstr_scan-some :
    (h n r : Text)
    → strstr_scan h n ≡ some r
    → (before : Text) × (rest : Text) × (h ≡ before ++ r) × (r ≡ n ++ rest)
unfolding strstr_scan
strstr_scan-some [] n r e = absurd (ground arith)
strstr_scan-some (a ∷ h) n r e = elim (Bool-cases (matches (a ∷ h) n)) [
  | inl hit ↦
      let (rest, f) = matches-append (a ∷ h) n hit in
      let g : r ≡ a ∷ h = ground arith in ([], rest, rw g, g ∙ f)
  | inr miss ↦
      let (x, y, f, g) = strstr_scan-some h n r (ground arith) in
      (a ∷ x, y, ap (λ (t : Text). a ∷ t) f, g)
]

strstr_scan-none :
    (h n before rest : Text) → n ≢ [] → strstr_scan h n ≡ none → h ≢ before ++ (n ++ rest)
unfolding strstr_scan
strstr_scan-none [] [] before rest ne e f = ne refl
strstr_scan-none [] (b ∷ n) [] rest ne e f = ground arith
strstr_scan-none [] (b ∷ n) (x ∷ before) rest ne e f = ground arith
strstr_scan-none (a ∷ h) n [] rest ne e f =
    let m : matches (a ∷ h) n ≡ true = rw f (append-matches n rest) in ground arith
strstr_scan-none (a ∷ h) n (x ∷ before) rest ne e f =
    strstr_scan-none h n before rest ne (ground arith) (ground arith)

-- `strstr` returns a place in the first text where the second stands, and null only when it stands
-- nowhere in it; the empty text is found at once.
strstr-finds :
    (h n : Text)
    → ((strstr h n ≡ none) × ((before rest : Text) → h ≢ before ++ (n ++ rest)))
      ⊎ ((before : Text) × (rest : Text) × (strstr h n ≡ some (n ++ rest))
          × (h ≡ before ++ (n ++ rest)))
unfolding strstr
strstr-finds h [] = inr ([], h, refl, refl)
strstr-finds h (b ∷ n) = elim (Option-cases (strstr_scan h (b ∷ n))) [
  | inl e ↦ inl (e, λ before rest. strstr_scan-none h (b ∷ n) before rest (ground arith) e)
  | inr (r, e) ↦
      let (before, rest, f, g) = strstr_scan-some h (b ∷ n) r e in
      inr (before, rest, e ∙ ap some g, f ∙ ap (λ (t : Text). before ++ t) g)
]
