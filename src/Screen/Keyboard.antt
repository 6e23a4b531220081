-- ===== src/Screen/Keyboard.antt =====
-- The conversion of scancodes in `keyboard_read` of kernel/io.c. The scancode is what the keyboard's
-- port gives.
use pine_os.Base.{
  ℕ, ◌≡◌, ◌≢◌, refl, sym, Bool, true, false, ◌&&◌, ◌||◌, not, List, [], ◌∷◌, ◌==◌, if◌then◌else◌,
  arith,
}

-- the cases of the `switch`: scancode and character
abbrev pub cases : List (ℕ × ℕ)
cases =
    (0x1c, 10)
    ∷ (0x0e, 8)
    ∷ (0x02, 49)
    ∷ (0x03, 50)
    ∷ (0x04, 51)
    ∷ (0x05, 52)
    ∷ (0x06, 53)
    ∷ (0x07, 54)
    ∷ (0x08, 55)
    ∷ (0x09, 56)
    ∷ (0x0a, 57)
    ∷ (0x0b, 48)
    ∷ (0x10, 113)
    ∷ (0x11, 119)
    ∷ (0x12, 101)
    ∷ (0x13, 114)
    ∷ (0x14, 116)
    ∷ (0x15, 121)
    ∷ (0x16, 117)
    ∷ (0x17, 105)
    ∷ (0x18, 111)
    ∷ (0x19, 112)
    ∷ (0x1e, 97)
    ∷ (0x1f, 115)
    ∷ (0x20, 100)
    ∷ (0x21, 102)
    ∷ (0x22, 103)
    ∷ (0x23, 104)
    ∷ (0x24, 106)
    ∷ (0x25, 107)
    ∷ (0x26, 108)
    ∷ (0x2c, 122)
    ∷ (0x2d, 120)
    ∷ (0x2e, 99)
    ∷ (0x2f, 118)
    ∷ (0x30, 98)
    ∷ (0x31, 110)
    ∷ (0x32, 109)
    ∷ (0x33, 44)
    ∷ (0x34, 46)
    ∷ (0x35, 47)
    ∷ (0x27, 59)
    ∷ (0x28, 39)
    ∷ (0x1a, 91)
    ∷ (0x1b, 93)
    ∷ (0x0c, 45)
    ∷ (0x0d, 61)
    ∷ (0x29, 96)
    ∷ (0x2b, 92)
    ∷ (0x39, 32)
    ∷ []

unfoldable pub ascii : List (ℕ × ℕ) → ℕ → ℕ
ascii [] scancode = 0
ascii ((k, c) ∷ t) scancode = if scancode == k then c else ascii t scancode

unfoldable pub keyboard_read : ℕ → ℕ
keyboard_read scancode = ascii cases scancode

has_char : ℕ → List (ℕ × ℕ) → Bool
has_char c [] = false
has_char c ((k, d) ∷ t) = (d == c) || has_char c t

unique : List (ℕ × ℕ) → Bool
unfolding has_char
unique [] = true
unique ((k, c) ∷ t) = not (has_char c t) && unique t

ascii-has_char : (t : List (ℕ × ℕ)) (a c : ℕ) → ascii t a ≡ c → c ≢ 0 → has_char c t ≡ true
unfolding ascii has_char
ascii-has_char [] a c e ne = absurd (ground arith)
ascii-has_char ((k, d) ∷ t) a c e ne = ground (arith, ascii-has_char t a c)

ascii-injective :
    (t : List (ℕ × ℕ)) (a b c : ℕ) → unique t ≡ true → ascii t a ≡ c → ascii t b ≡ c → c ≢ 0 → a ≡ b
unfolding ascii unique
ascii-injective [] a b c u e f ne = absurd (ground arith)
ascii-injective ((k, d) ∷ t) a b c u e f ne =
    ground (arith, ascii-injective t a b c, ascii-has_char t a c, ascii-has_char t b c)

-- No two scancodes give the same character, other than those without a character.
pub keyboard_read-injective :
    (a b : ℕ) → keyboard_read a ≢ 0 → keyboard_read a ≡ keyboard_read b → a ≡ b
unfolding keyboard_read
keyboard_read-injective a b ne e =
    ascii-injective cases a b (ascii cases a) (unfold unique in refl) refl (sym e) ne
