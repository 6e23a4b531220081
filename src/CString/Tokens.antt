-- ===== src/CString/Tokens.antt =====
-- The loop over `strtok` that takes a path apart, and what it makes of a path.
use pine_os.Base.{
  ℕ, zero, suc, ◌≤◌, ◌<◌, ◌≡◌, ◌≢◌, refl, ap, ◌∙◌, true, false, Option, none, some, List, [], ◌∷◌,
  ◌++◌, arith, length, length-append,
}
use pine_os.CString.{Text, strtok, strtok_saved, take_token, cut_token, skip_delims, is_delim}

-- one round: stop at a null token
abbrev pub spread : Option Text × Option Text → (Option Text → List Text) → List Text
spread (none, rest) more = []
spread (some t, rest) more = t ∷ more rest

-- `component = strtok(0, delim)` until it is null, on fuel
pub tokens_saved : ℕ → Option Text → Text → List Text
unfolding strtok
tokens_saved zero saved delim = []
tokens_saved (suc f) saved delim =
    spread (strtok none delim saved) (λ rest. tokens_saved f rest delim)

-- The components of `s`: a call with `s`, then calls with null.
unfoldable pub tokens : Text → Text → List Text
unfolding tokens_saved
tokens s delim = tokens_saved (suc (length s)) (some s) delim

-- no byte of the text is a delimiter
abbrev pub Plain : Text → Text → Type 0
Plain delim [] = Unit
Plain delim (a ∷ s) = (is_delim a delim ≡ false) × Plain delim s

abbrev pub Words : Text → List Text → Type 0
Words delim [] = Unit
Words delim (w ∷ ws) = (w ≢ []) × Plain delim w × Words delim ws

-- the words, each with the byte `d` before it
pub spell : ℕ → List Text → Text
spell d [] = []
spell d (w ∷ ws) = d ∷ (w ++ spell d ws)

-- what the words leave in `saved_str` when the delimiter in front has been overwritten
after : ℕ → List Text → Option Text
after d [] = none
after d (w ∷ ws) = some (w ++ spell d ws)

module _ (d : ℕ) (delim : Text) (sep : is_delim d delim ≡ true) where
  cut_token-word :
      (w : Text) (ws : List Text)
      → Plain delim w
      → cut_token (w ++ spell d ws) delim ≡ (w, after d ws)
  unfolding cut_token spell after
  cut_token-word [] [] p = refl
  cut_token-word [] (v ∷ ws) p = ground arith
  cut_token-word (a ∷ w) ws p = ground (arith, cut_token-word w ws p.1)

  strtok-word :
      (w : Text) (ws : List Text)
      → w ≢ []
      → Plain delim w
      → strtok none delim (some (w ++ spell d ws)) ≡ (some w, after d ws)
  unfolding strtok strtok_saved take_token skip_delims
  strtok-word [] ws ne p = absurd (ne refl)
  strtok-word (a ∷ w) ws ne p = rw p.0 (rw (cut_token-word (a ∷ w) ws p))

  tokens_saved-after :
      (f : ℕ) (ws : List Text)
      → Words delim ws
      → length ws < f
      → tokens_saved f (after d ws) delim ≡ ws
  unfolding tokens_saved after
  tokens_saved-after zero ws h lt = absurd (omega arith)
  tokens_saved-after (suc f) [] h lt = unfold strtok strtok_saved in refl
  tokens_saved-after (suc f) (w ∷ ws) h lt =
      ap (λ r. spread r (λ rest. tokens_saved f rest delim)) (strtok-word w ws h.0 h.1)
      ∙ ap (λ (r : List Text). w ∷ r) (tokens_saved-after f ws h.2 (omega arith))

  length-spell : (ws : List Text) → length ws ≤ length (spell d ws)
  unfolding spell
  length-spell [] = omega arith
  length-spell (w ∷ ws) = omega (arith, length-append w (spell d ws), length-spell ws)

  strtok-delim : (s : Text) → strtok none delim (some (d ∷ s)) ≡ strtok none delim (some s)
  unfolding strtok strtok_saved skip_delims
  strtok-delim s = rw sep

  -- Taken apart by `strtok`, words that are spelled with a delimiter in front of each come back,
  -- in order: non-empty words without a delimiter.
  pub tokens-spell : (ws : List Text) → Words delim ws → tokens (spell d ws) delim ≡ ws
  unfolding tokens spell after
  tokens-spell [] h = unfold tokens_saved strtok strtok_saved skip_delims take_token in refl
  tokens-spell (w ∷ ws) h =
      let f = length (spell d (w ∷ ws)) in
      unfold tokens_saved in
      (ap (λ r. spread r (λ rest. tokens_saved f rest delim)) (strtok-delim (w ++ spell d ws))
        ∙ tokens_saved-after (suc f) (w ∷ ws) h (omega (arith, length-spell (w ∷ ws))))
