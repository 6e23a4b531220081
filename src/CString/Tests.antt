-- ===== src/CString/Tests.antt =====
-- The string functions on short texts.
use pine_os.Base.{◌≡◌, refl, true, [], ◌∷◌, arith}
use pine_os.CString.{Text, strchr, is_delim}
use pine_os.CString.Compare.{IsText}
use pine_os.CString.Tokens.{tokens, spell, Words, tokens-spell}

abbrev usr : Text
usr = b'u' ∷ b's' ∷ b'r' ∷ []

abbrev run : Text
run = b'u' ∷ b's' ∷ b'e' ∷ []

usr-IsText : IsText usr
usr-IsText = ground arith

use-IsText : IsText run
use-IsText = ground arith

sep : is_delim b'/' (b'/' ∷ []) ≡ true
unfolding is_delim strchr
sep = refl

words : Words (b'/' ∷ []) (usr ∷ run ∷ [])
unfolding is_delim strchr
words = ground arith

tokens-spell_example : tokens (spell b'/' (usr ∷ run ∷ [])) (b'/' ∷ []) ≡ usr ∷ run ∷ []
tokens-spell_example = tokens-spell b'/' (b'/' ∷ []) sep (usr ∷ run ∷ []) words
