-- ===== src/CString/Progress.antt =====
-- Each token that `strtok` returns uses up a part of the string.
use pine_os.Base.{ℕ, suc, ◌≤◌, ◌<◌, ◌≡◌, Option, none, some, [], ◌∷◌, arith}
use pine_os.CString.{Text, strlen, strtok, strtok_saved, take_token, cut_token, skip_delims}

-- the bytes that `saved_str` still stands before, with the NUL
abbrev pub left : Option Text → ℕ
left none = 0
left (some s) = suc (strlen s)

left-cut_token : (s d : Text) → left (cut_token s d).1 ≤ strlen s
unfolding cut_token strlen
left-cut_token [] d = omega arith
left-cut_token (a ∷ s) d = ground (arith, left-cut_token s d)

strlen-skip_delims : (s d : Text) → strlen (skip_delims s d) ≤ strlen s
unfolding skip_delims strlen
strlen-skip_delims [] d = omega arith
strlen-skip_delims (a ∷ s) d = ground (arith, strlen-skip_delims s d)

left-take_token :
    (s d : Text) (t : Text) → (take_token s d).0 ≡ some t → left (take_token s d).1 ≤ strlen s
unfolding take_token
left-take_token [] d t e = absurd (ground arith)
left-take_token (a ∷ s) d t e = left-cut_token (a ∷ s) d

-- What is left to scan falls with each token.
pub left-strtok :
    (saved : Option Text) (d t : Text)
    → (strtok none d saved).0 ≡ some t
    → left (strtok none d saved).1 < left saved
unfolding strtok strtok_saved
left-strtok none d t e = absurd (ground arith)
left-strtok (some s) d t e =
    omega (arith, left-take_token (skip_delims s d) d t e, strlen-skip_delims s d)
