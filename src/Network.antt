-- ===== src/Network.antt =====
-- Addresses and the interface table of kernel/network.c: the addresses.
pub mod Address
pub mod Table
pub mod Config
pub mod Interfaces
mod Tests
use pine_os.Base.{
  ℕ, zero, suc, ◌+◌, ◌-◌, ◌*◌, ◌/◌, ◌%◌, Bool, true, false, ◌&&◌, ◌||◌, not, Option, none, some,
  List, [], ◌∷◌, ◌++◌, ltb, leb, ◌==◌, if◌then◌else◌, length, ℤ, pos, minus_one,
}
use pine_os.CString.{Text}
use pine_os.Machine.{codes}
use pine_os.Filesystem.Paths.{same_text}

-- `ip_address_t`
pub record Ip : Type 0 where
  pub a : ℕ
  pub b : ℕ
  pub c : ℕ
  pub d : ℕ

abbrev pub ip : ℕ → ℕ → ℕ → ℕ → Ip
ip a b c d = record { a = a; b = b; c = c; d = d }

-- After the loop: three octets are in the array and the fourth in `current_octet`.
abbrev pub finish : List ℕ → ℕ → Option Ip
finish (c ∷ b ∷ a ∷ []) d = some (ip a b c d)
finish octets d = none

abbrev pub is_digit : ℕ → Bool
is_digit c = leb b'0' c && leb c b'9'

-- The loop, with the octets so far, last first, and `current_octet`; it ends at the fourth octet.
unfoldable pub parse : Text → List ℕ → ℕ → Option Ip
parse [] octets current = finish octets current
parse (ch ∷ str) octets current =
    let digit = parse str octets (current * 10 + (ch - b'0')) in
    let dot = parse str (current ∷ octets) 0 in
    if leb 4 (length octets)
    then none
    else if is_digit ch
    then (if ltb 255 (current * 10 + (ch - b'0')) then none else digit)
    else if ch == b'.'
    then dot
    else none

-- `none` is the result -1; the result 0 comes with the address that is written.
unfoldable pub ip_from_string : Text → Option Ip
ip_from_string str = parse str [] 0

-- the digits of one octet
unfoldable pub octet_text : ℕ → Text
octet_text octet =
    let hundreds = if leb 100 octet then (b'0' + octet / 100) ∷ [] else [] in
    let rest = if leb 100 octet then octet % 100 else octet in
    let tens = if leb 10 rest || leb 100 octet then (b'0' + rest / 10) ∷ [] else [] in
    let ones = if leb 10 rest || leb 100 octet then rest % 10 else rest in
    hundreds ++ (tens ++ ((b'0' + ones) ∷ []))

unfoldable pub ip_to_string : Ip → Text
ip_to_string x =
    octet_text x.a
    ++ (b'.' ∷ (octet_text x.b ++ (b'.' ∷ (octet_text x.c ++ (b'.' ∷ octet_text x.d)))))
