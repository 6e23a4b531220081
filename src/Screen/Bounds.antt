-- ===== src/Screen/Bounds.antt =====
-- The cursor stays on the screen, and what is printed stays in the buffer.
use pine_os.Base.{
  ℕ, ◌+◌, ◌*◌, ◌≡◌, ◌≤◌, ◌<◌, List, [], ◌∷◌, inl, inr, leb, ◌==◌, arith, Bool-cases, ◌∙◌, refl, ap,
}
use pine_os.Ram.{Ram, poke}
use pine_os.Screen.{
  Screen, width, height, put_cell, scroll_below, wrap, step_back, new_line, rub_out, put_plain,
  vga_putchar, vga_puts,
}
use pine_os.Screen.Scroll.{vga_scroll_lem}

-- The cursor is in one of the 25 lines, in a column or right behind the last.
pub record OnScreen (s : Screen) : Type 0 where
  pub column : s.x ≤ width
  pub line : s.y < height

-- The screen `t` is on the screen, and outside the 4000 bytes its buffer is that of `s`.
pub record Printed (s t : Screen) : Type 0 where
  pub on : OnScreen t
  pub outside : (a : ℕ) → 4000 ≤ a → t.buffer a ≡ s.buffer a

scroll_below-Printed :
    (s : Screen) → s.x ≤ width → Printed s (scroll_below s) × ((scroll_below s).x ≡ s.x)
unfolding scroll_below
scroll_below-Printed s le = elim (Bool-cases (leb height s.y)) [
  | inl e ↦
      let moved = vga_scroll_lem s 0 in
      rw e (
        record {
          on = record { column = omega (arith, moved.2); line = omega (arith, moved.1) };
          outside = λ a out. ground (arith, vga_scroll_lem s a);
        },
        moved.2,
      )
  | inr e ↦
      rw e
        (record { on = record { column = le; line = ground arith }; outside = λ a out. refl }, refl)
]

new_line-Printed : (s : Screen) → OnScreen s → Printed s (new_line s)
unfolding new_line
new_line-Printed s on =
    let p = (scroll_below-Printed (record s { x = 0; y = s.y + 1 }) (omega arith)).0 in
    record { on = p.on; outside = p.outside }

step_back-OnScreen :
    (s : Screen)
    → OnScreen s
    → ((step_back s).x < width) × ((step_back s).y < height) × ((step_back s).buffer ≡ s.buffer)
step_back-OnScreen s on = (ground arith, ground arith, ground arith)

wrap-column : (s : Screen) → ((wrap s).x < width) × ((wrap s).buffer ≡ s.buffer)
wrap-column s = (ground arith, ground arith)

rub_out-Printed : (s : Screen) → OnScreen s → Printed s (rub_out s)
unfolding rub_out poke
rub_out-Printed s on =
    let b = step_back-OnScreen s on in go (step_back s) b.0 b.1 (λ a. ap (λ (m : Ram). m a) b.2)
  where
    go :
        (t : Screen)
        → t.x < width
        → t.y < height
        → ((a : ℕ) → t.buffer a ≡ s.buffer a)
        → Printed s (record t { buffer = poke t.buffer ((t.y * width + t.x) * 2) b' ' })
    go t bx by same = record {
      on = record { column = omega arith; line = by };
      outside = λ a out. ground (arith, same a);
    }

put_plain-Printed : (c : ℕ) (s : Screen) → Printed s (put_plain c s)
unfolding put_plain put_cell poke
put_plain-Printed c s =
    let w = wrap-column s in
    let (p, x) = scroll_below-Printed (wrap s) (omega (arith, w.0)) in
    go (scroll_below (wrap s)) (omega (arith, w.0)) p.on.line
      (λ a out. p.outside a out ∙ ap (λ (m : Ram). m a) w.1)
  where
    go :
        (t : Screen)
        → t.x < width
        → t.y < height
        → ((a : ℕ) → 4000 ≤ a → t.buffer a ≡ s.buffer a)
        → Printed s (record t {
          x = t.x + 1;
          buffer = put_cell t.buffer ((t.y * width + t.x) * 2) c t.color;
        })
    go t bx by same = record {
      on = record { column = omega arith; line = by };
      outside = λ a out. ground (arith, same a);
    }

-- One character, whatever it is, moves the cursor to a place on the screen again, and writes into
-- the 4000 bytes of the buffer only.
pub vga_putchar-Printed : (c : ℕ) (s : Screen) → OnScreen s → Printed s (vga_putchar c s)
unfolding vga_putchar
vga_putchar-Printed c s on = elim (Bool-cases (c == 10)) [
  | inl e ↦ rw e (new_line-Printed s on)
  | inr e ↦ elim (Bool-cases (c == 8)) [
    | inl f ↦ rw (e, f) (rub_out-Printed s on)
    | inr f ↦ rw (e, f) (put_plain-Printed c s)
  ]
]

-- Printing any text from a cursor on the screen ends with the cursor on the screen, and writes into
-- the 4000 bytes of the buffer only.
pub vga_puts-Printed : (t : List ℕ) (s : Screen) → OnScreen s → Printed s (vga_puts t s)
unfolding vga_puts
vga_puts-Printed [] s on = record { on = on; outside = λ a out. refl }
vga_puts-Printed (c ∷ t) s on =
    let p = vga_putchar-Printed c s on in
    let q = vga_puts-Printed t (vga_putchar c s) p.on in
    record { on = q.on; outside = λ a out. q.outside a out ∙ p.outside a out }
