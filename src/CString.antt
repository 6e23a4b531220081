-- ===== src/CString.antt =====
-- The string functions of kernel/string.c on texts: the bytes of a C string, without its NUL.
-- A pointer into a string is the text from there on, and the null pointer is `none`.
pub mod Compare
pub mod Search
pub mod Tokens
pub mod Progress
mod Tests
use pine_os.Base.{
  ℕ, zero, suc, ◌+◌, ◌-◌, ◌%◌, Bool, true, false, ◌&&◌, ◌||◌, Option, none, some, List, [], ◌∷◌,
  ◌==◌, if◌then◌else◌, not, ℤ, pos, sub_ℕ,
}

abbrev pub Text : Type 0
Text = List ℕ

-- `*s1 - *s2` at type `char`, which is signed: a byte from 128 on stands for itself less 256.
abbrev pub char_diff : ℕ → ℕ → ℤ
char_diff a b = sub_ℕ ((a + 128) % 256) ((b + 128) % 256)

unfoldable pub strcmp : Text → Text → ℤ
strcmp [] [] = pos 0
strcmp [] (b ∷ t) = char_diff 0 b
strcmp (a ∷ s) [] = char_diff a 0
strcmp (a ∷ s) (b ∷ t) = if a == b then strcmp s t else char_diff a b

unfoldable pub strlen : Text → ℕ
strlen [] = 0
strlen (c ∷ s) = suc (strlen s)

unfoldable pub strncmp : Text → Text → ℕ → ℤ
strncmp s t zero = pos 0
strncmp [] [] (suc n) = pos 0
strncmp [] (b ∷ t) (suc n) = char_diff 0 b
strncmp (a ∷ s) [] (suc n) = char_diff a 0
strncmp (a ∷ s) (b ∷ t) (suc n) = if a == b then strncmp s t n else char_diff a b

unfoldable pub strchr : Text → ℕ → Option Text
strchr [] c = none
strchr (a ∷ s) c = if a == c then some (a ∷ s) else strchr s c

-- the scan with the last place found so far
unfoldable pub strrchr_from : Text → ℕ → Option Text → Option Text
strrchr_from [] c last = last
strrchr_from (a ∷ s) c last = strrchr_from s c (if a == c then some (a ∷ s) else last)

unfoldable pub strrchr : Text → ℕ → Option Text
unfolding strrchr_from
strrchr s c = strrchr_from s c none

-- the inner loop of `strstr`: whether the needle is used up
unfoldable pub matches : Text → Text → Bool
matches h [] = true
matches [] (b ∷ n) = false
matches (a ∷ h) (b ∷ n) = if a == b then matches h n else false

unfoldable pub strstr_scan : Text → Text → Option Text
strstr_scan [] n = none
strstr_scan (a ∷ h) n = if matches (a ∷ h) n then some (a ∷ h) else strstr_scan h n

unfoldable pub strstr : Text → Text → Option Text
unfolding strstr_scan matches
strstr h [] = some h
strstr h (b ∷ n) = strstr_scan h (b ∷ n)

unfoldable pub is_delim : ℕ → Text → Bool
unfolding strchr
is_delim c delim = elim (strchr delim c) [ none ↦ false | some _ ↦ true ]

-- `while (*saved_str && strchr(delim, *saved_str)) saved_str++`
unfoldable pub skip_delims : Text → Text → Text
skip_delims [] delim = []
skip_delims (a ∷ s) delim = if is_delim a delim then skip_delims s delim else a ∷ s

-- The token at the front, and what `saved_str` is after it: past the delimiter that is
-- overwritten by a NUL, or null at the end of the string.
unfoldable pub cut_token : Text → Text → Text × Option Text
cut_token [] delim = ([], none)
cut_token (a ∷ s) delim =
    let (t, r) = cut_token s delim in if is_delim a delim then ([], some s) else (a ∷ t, r)

-- what is left after the delimiters are skipped
unfoldable pub take_token : Text → Text → Option Text × Option Text
unfolding cut_token
take_token [] delim = (none, some [])
take_token (a ∷ s) delim = let (t, r) = cut_token (a ∷ s) delim in (some t, r)

-- The static `saved_str` is passed in and out; the token is `none` for a null result.
unfoldable pub strtok_saved : Option Text → Text → Option Text × Option Text
unfolding take_token skip_delims is_delim
strtok_saved none delim = (none, none)
strtok_saved (some s) delim = take_token (skip_delims s delim) delim

-- `strtok(str, delim)` when the saved pointer is `saved`
unfoldable pub strtok : Option Text → Text → Option Text → Option Text × Option Text
unfolding strtok_saved
strtok none delim saved = strtok_saved saved delim
strtok (some s) delim saved = strtok_saved (some s) delim
