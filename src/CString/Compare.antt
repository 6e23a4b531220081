-- ===== src/CString/Compare.antt =====
-- `strcmp` and `strncmp` decide equality.
use pine_os.Base.{ℕ, zero, suc, ◌<◌, ◌≡◌, ◌↔◌, refl, [], ◌∷◌, arith, pos, take}
use pine_os.CString.{Text, strcmp, strncmp}

-- What the kernel's strings hold: no NUL, and bytes.
abbrev pub IsText : Text → Type 0
IsText [] = Unit
IsText (a ∷ s) = (0 < a) × (a < 256) × IsText s

strcmp_self : (s : Text) → strcmp s s ≡ pos 0
unfolding strcmp
strcmp_self [] = refl
strcmp_self (a ∷ s) = ground (arith, strcmp_self s)

eq_of_strcmp : (s t : Text) → IsText s → IsText t → strcmp s t ≡ pos 0 → s ≡ t
unfolding strcmp
eq_of_strcmp [] [] p q e = refl
eq_of_strcmp [] (b ∷ t) p q e = absurd (ground arith)
eq_of_strcmp (a ∷ s) [] p q e = absurd (ground arith)
eq_of_strcmp (a ∷ s) (b ∷ t) p q e = ground (arith, eq_of_strcmp s t p.2 q.2)

-- On texts `strcmp` returns 0 exactly when they are equal.
pub strcmp_iff : (s t : Text) → IsText s → IsText t → (strcmp s t ≡ pos 0) ↔ (s ≡ t)
strcmp_iff s t p q = (eq_of_strcmp s t p q, λ e. rw e (strcmp_self t))

take_of_strncmp :
    (s t : Text) (n : ℕ) → IsText s → IsText t → strncmp s t n ≡ pos 0 → take n s ≡ take n t
unfolding strncmp
take_of_strncmp s t zero p q e = refl
take_of_strncmp [] [] (suc n) p q e = refl
take_of_strncmp [] (b ∷ t) (suc n) p q e = absurd (ground arith)
take_of_strncmp (a ∷ s) [] (suc n) p q e = absurd (ground arith)
take_of_strncmp (a ∷ s) (b ∷ t) (suc n) p q e = ground (arith, take_of_strncmp s t n p.2 q.2)

strncmp_of_take : (s t : Text) (n : ℕ) → take n s ≡ take n t → strncmp s t n ≡ pos 0
unfolding strncmp
strncmp_of_take s t zero e = refl
strncmp_of_take [] [] (suc n) e = refl
strncmp_of_take [] (b ∷ t) (suc n) e = ground arith
strncmp_of_take (a ∷ s) [] (suc n) e = ground arith
strncmp_of_take (a ∷ s) (b ∷ t) (suc n) e = ground (arith, strncmp_of_take s t n)

-- On texts `strncmp` returns 0 exactly when their first `n` bytes are equal.
pub strncmp_iff :
    (s t : Text) (n : ℕ) → IsText s → IsText t → (strncmp s t n ≡ pos 0) ↔ (take n s ≡ take n t)
strncmp_iff s t n p q = (take_of_strncmp s t n p q, strncmp_of_take s t n)
