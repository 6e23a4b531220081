-- ===== src/Screen/Scroll.antt =====
-- What scrolling and clearing write into the buffer.
use pine_os.Base.{
  ℕ, zero, suc, ◌+◌, ◌*◌, ◌%◌, ◌≡◌, ◌≤◌, ◌&&◌, ltb, leb, ◌==◌, if◌then◌else◌, arith, ◌∙◌, refl,
}
use pine_os.Ram.{Ram, poke}
use pine_os.Screen.{
  Screen, width, put_cell, copy_cell, copy_row, copy_rows, blank, vga_clear, vga_scroll,
}

pub copy_row_lem :
    (m : Ram) (i j n a : ℕ)
    → j + n ≤ width
    → copy_row m i j n a
      ≡ (if leb (i * 160 + j * 2) a && ltb a (i * 160 + (j + n) * 2) then m (a + 160) else m a)
unfolding copy_row copy_cell poke
copy_row_lem m i j zero a le = ground arith
copy_row_lem m i j (suc n) a le = ground (
  arith,
  copy_row_lem (copy_cell m ((i * width + j) * 2) (((i + 1) * width + j) * 2)) i (j + 1) n a,
)

-- the rows below the row `i` in `r`, which is `m` with that row copied
copy_rows-step :
    (m r : Ram) (i n a : ℕ)
    → r a ≡ (if leb (i * 160) a && ltb a (i * 160 + 160) then m (a + 160) else m a)
    → r (a + 160) ≡ (
        if leb (i * 160) (a + 160) && ltb (a + 160) (i * 160 + 160)
        then m (a + 160 + 160)
        else m (a + 160))
    → (if leb ((i + 1) * 160) a && ltb a ((i + 1 + n) * 160) then r (a + 160) else r a)
      ≡ (if leb (i * 160) a && ltb a ((i + suc n) * 160) then m (a + 160) else m a)
copy_rows-step m r i n a e f = ground arith

pub copy_rows_lem :
    (m : Ram) (i n a : ℕ)
    → copy_rows m i n a ≡ (if leb (i * 160) a && ltb a ((i + n) * 160) then m (a + 160) else m a)
unfolding copy_rows
copy_rows_lem m i zero a = ground arith
copy_rows_lem m i (suc n) a =
    copy_rows_lem (copy_row m i 0 width) (i + 1) n a
    ∙ copy_rows-step m (copy_row m i 0 width) i n a (row a) (row (a + 160))
  where
    row :
        (a : ℕ)
        → copy_row m i 0 width a
          ≡ (if leb (i * 160) a && ltb a (i * 160 + 160) then m (a + 160) else m a)
    row a = ground (arith, copy_row_lem m i 0 width a (omega arith))

pub blank_lem :
    (m : Ram) (color k n a : ℕ)
    → blank m color k n a
      ≡ (if leb (k * 2) a && ltb a ((k + n) * 2) then (if a % 2 == 0 then b' ' else color) else m a)
unfolding blank put_cell poke
blank_lem m color k zero a = ground arith
blank_lem m color k (suc n) a =
    ground (arith, blank_lem (put_cell m (k * 2) b' ' color) color (k + 1) n a)

scrolled :
    (m r : Ram) (color a : ℕ)
    → r a ≡ (if leb (0 * 160) a && ltb a ((0 + 24) * 160) then m (a + 160) else m a)
    → (if leb (1920 * 2) a && ltb a ((1920 + 80) * 2)
        then (if a % 2 == 0 then b' ' else color)
        else r a)
      ≡ (if ltb a 3840
          then m (a + 160)
          else if ltb a 4000
          then (if a % 2 == 0 then b' ' else color)
          else m a)
scrolled m r color a e = ground arith

-- `vga_scroll` moves each of the lines 1 to 24 one line up, characters and attributes, fills the
-- last line with blanks in the current color, writes nothing outside the 4000 bytes of the buffer,
-- sets the cursor's line to the last one and keeps its column.
pub vga_scroll_lem :
    (s : Screen) (a : ℕ)
    → ((vga_scroll s).buffer a ≡ (
        if ltb a 3840
        then s.buffer (a + 160)
        else if ltb a 4000
        then (if a % 2 == 0 then b' ' else s.color)
        else s.buffer a))
      × ((vga_scroll s).y ≡ 24)
      × ((vga_scroll s).x ≡ s.x)
unfolding vga_scroll
vga_scroll_lem s a = (
  blank_lem (copy_rows s.buffer 0 24) s.color 1920 80 a
      ∙ scrolled s.buffer (copy_rows s.buffer 0 24) s.color a (copy_rows_lem s.buffer 0 24 a),
  refl,
  refl,
)

cleared :
    (m : Ram) (color a : ℕ)
    → (if leb (0 * 2) a && ltb a ((0 + 2000) * 2)
        then (if a % 2 == 0 then b' ' else color)
        else m a)
      ≡ (if ltb a 4000 then (if a % 2 == 0 then b' ' else color) else m a)
cleared m color a = ground arith

-- `vga_clear` fills the 4000 bytes of the buffer with blanks in the current color, writes nothing
-- else, and sets the cursor to the first cell.
pub vga_clear_lem :
    (s : Screen) (a : ℕ)
    → ((vga_clear s).buffer a
        ≡ (if ltb a 4000 then (if a % 2 == 0 then b' ' else s.color) else s.buffer a))
      × ((vga_clear s).x ≡ 0)
      × ((vga_clear s).y ≡ 0)
unfolding vga_clear
vga_clear_lem s a = (blank_lem s.buffer s.color 0 2000 a ∙ cleared s.buffer s.color a, refl, refl)
