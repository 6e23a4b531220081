-- ===== src/Screen.antt =====
-- The text screen and the keyboard's table of kernel/io.c.
pub mod Scroll
pub mod Bounds
pub mod Keyboard
mod Tests
use pine_os.Base.{ℕ, zero, suc, ◌+◌, ◌-◌, ◌*◌, List, [], ◌∷◌, ltb, leb, ◌==◌, if◌then◌else◌}
use pine_os.Ram.{Ram, poke}

abbrev pub width : ℕ
width = 80

abbrev pub height : ℕ
height = 25

-- `VGA_LIGHT_GREY`
abbrev pub light_grey : ℕ
light_grey = 7

-- `vga_x`, `vga_y`, `vga_color` and the bytes behind `vga_buffer`
pub record Screen : Type 0 where
  pub x : ℕ
  pub y : ℕ
  pub color : ℕ
  pub buffer : Ram

-- A character and its attribute, at an offset into the buffer.
unfoldable pub put_cell : Ram → (index c color : ℕ) → Ram
put_cell m index c color = poke (poke m index c) (index + 1) color

unfoldable pub copy_cell : Ram → (dst src : ℕ) → Ram
copy_cell m dst src = let m' = poke m dst (m src) in poke m' (dst + 1) (m' (src + 1))

-- the inner loop of the scroll, from column `j` on, with the rounds left
unfoldable pub copy_row : Ram → (i j n : ℕ) → Ram
copy_row m i j zero = m
copy_row m i j (suc n) =
    copy_row (copy_cell m ((i * width + j) * 2) (((i + 1) * width + j) * 2)) i (j + 1) n

unfoldable pub copy_rows : Ram → (i n : ℕ) → Ram
copy_rows m i zero = m
copy_rows m i (suc n) = copy_rows (copy_row m i 0 width) (i + 1) n

-- blank cells from the cell `k` on, with the rounds left
unfoldable pub blank : Ram → (color k n : ℕ) → Ram
blank m color k zero = m
blank m color k (suc n) = blank (put_cell m (k * 2) b' ' color) color (k + 1) n

unfoldable pub vga_clear : Screen → Screen
vga_clear s = record s { x = 0; y = 0; buffer = blank s.buffer s.color 0 (width * height) }

unfoldable pub vga_init : Screen → Screen
vga_init s = vga_clear (record s { x = 0; y = 0; color = light_grey })

unfoldable pub vga_scroll : Screen → Screen
vga_scroll s = record s {
  y = height - 1;
  buffer = blank (copy_rows s.buffer 0 (height - 1)) s.color ((height - 1) * width) width;
}

-- `if (vga_y >= VGA_HEIGHT) vga_scroll();`
unfoldable pub scroll_below : Screen → Screen
scroll_below s = if leb height s.y then vga_scroll s else s

unfoldable pub new_line : Screen → Screen
new_line s = scroll_below (record s { x = 0; y = s.y + 1 })

-- the cursor goes one cell back, not past the first
abbrev pub step_back : Screen → Screen
step_back s =
    if ltb 0 s.x
    then record s { x = s.x - 1 }
    else if ltb 0 s.y
    then record s { x = width - 1; y = s.y - 1 }
    else s

unfoldable pub rub_out : Screen → Screen
rub_out s =
    let t = step_back s in record t { buffer = poke t.buffer ((t.y * width + t.x) * 2) b' ' }

-- `if (vga_x >= VGA_WIDTH) { vga_x = 0; vga_y++; }`
abbrev pub wrap : Screen → Screen
wrap s = if leb width s.x then record s { x = 0; y = s.y + 1 } else s

unfoldable pub put_plain : ℕ → Screen → Screen
put_plain c s =
    let t = scroll_below (wrap s) in
    record t { x = t.x + 1; buffer = put_cell t.buffer ((t.y * width + t.x) * 2) c t.color }

unfoldable pub vga_putchar : ℕ → Screen → Screen
vga_putchar c s = if c == 10 then new_line s else if c == 8 then rub_out s else put_plain c s

unfoldable pub vga_puts : List ℕ → Screen → Screen
vga_puts [] s = s
vga_puts (c ∷ t) s = vga_puts t (vga_putchar c s)

abbrev pub vga_set_color : ℕ → Screen → Screen
vga_set_color c s = record s { color = c }

abbrev pub vga_set_cursor : ℕ → ℕ → Screen → Screen
vga_set_cursor x y s = record s { x = x; y = y }
