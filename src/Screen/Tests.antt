-- ===== src/Screen/Tests.antt =====
-- The screen and the keyboard at work.
use pine_os.Base.{◌≢◌, [], ◌∷◌, arith}
use pine_os.Screen.{Screen, vga_puts}
use pine_os.Screen.Bounds.{OnScreen, Printed, vga_puts-Printed}
use pine_os.Screen.Keyboard.{ascii, keyboard_read}

-- the cursor behind the last column of the last line
abbrev full : Screen
full = record { x = 80; y = 24; color = 7; buffer = λ a. a }

full-OnScreen : OnScreen full
full-OnScreen = record { column = omega arith; line = omega arith }

vga_puts-Printed_example : Printed full (vga_puts (b'a' ∷ 10 ∷ 8 ∷ []) full)
vga_puts-Printed_example = vga_puts-Printed (b'a' ∷ 10 ∷ 8 ∷ []) full full-OnScreen

q_is_mapped : keyboard_read 16 ≢ 0
unfolding keyboard_read ascii
q_is_mapped = ground arith
