-- ===== src/Storage/Simulated.antt =====
-- A drive with its registers, which is busy now and then.
use pine_os.Base.{
  ℕ, ◌+◌, ◌*◌, ◌/◌, ◌%◌, ◌^◌, ◌&&◌, [], ◌∷◌, ◌++◌, ◌==◌, if◌then◌else◌, length, replicate,
}
use pine_os.CString.{Text}
use pine_os.Storage.{Bus}

pub data Mode : Type 0 where
  idle : Mode
  sending : Text → Mode
  storing : ℕ → Text → Mode

-- For how many more reads of the status the drive is busy.
pub data Rest : Type 0 where
  free : Rest
  once : Rest
  twice : Rest

abbrev pub count : Rest → ℕ
count free = 0
count once = 1
count twice = 2

-- BSY, or RDY and DRQ
abbrev pub status : Rest → ℕ
status free = 0x48
status once = 0x80
status twice = 0x80

abbrev pub polled : Rest → Rest
polled free = free
polled once = free
polled twice = once

pub record Sim : Type 0 where
  pub sectors : ℕ → Text
  pub low : ℕ
  pub mid : ℕ
  pub high : ℕ
  pub top : ℕ
  pub mode : Mode
  pub rest : Rest

abbrev pub clamp : Text → Text
clamp [] = []
clamp (x ∷ t) = x % 256 ∷ clamp t

-- what a text is as a sector
abbrev pub fit : Text → Text
fit t = if length t == 512 then clamp t else replicate 512 0

-- A sector that has been taken as a whole counts.
abbrev pub contents : Mode → (ℕ → Text) → ℕ → Text
contents idle old l = old l
contents (sending t) old l = old l
contents (storing lba t) old l = if l == lba && length t == 512 then t else old l

abbrev pub view : Sim → ℕ → Text
view w l = fit (contents w.mode w.sectors l)

abbrev pub target : Sim → ℕ
target w = w.low + 2 ^ 8 * w.mid + 2 ^ 16 * w.high + 2 ^ 24 * w.top

abbrev pub command : ℕ → Sim → Sim
command c w =
    let kept = contents w.mode w.sectors in
    if c == 0x20
    then record w { sectors = kept; mode = sending (view w (target w)); rest = twice }
    else if c == 0x30
    then record w { sectors = kept; mode = storing (target w) []; rest = once }
    else w

abbrev pub take_byte : ℕ → ℕ → Sim → Sim
take_byte p v w =
    if p == 0x1F3
    then record w { low = v }
    else if p == 0x1F4
    then record w { mid = v }
    else if p == 0x1F5
    then record w { high = v }
    else if p == 0x1F6
    then record w { top = v % 16 }
    else if p == 0x1F7
    then command v w
    else w

abbrev pub give : Mode → ℕ × Mode
give (sending (a ∷ b ∷ t)) = (a + 256 * b, sending t)
give m = (0, m)

abbrev pub store : ℕ → Mode → Mode
store v (storing lba t) = storing lba (t ++ (v % 256 ∷ v / 256 % 256 ∷ []))
store v m = m

-- A drive that has taken a whole sector is busy while it writes it.
abbrev pub writing : Mode → Rest → Rest
writing idle r = r
writing (sending t) r = r
writing (storing lba t) r = if length t == 512 then twice else r

abbrev pub sim : Bus Sim
sim = record {
  inb = λ p w. (status w.rest, record w { rest = polled w.rest });
  outb = take_byte;
  inw = λ p w. let (v, m) = give w.mode in (v, record w { mode = m });
  outw = λ p v w. record w { mode = store v w.mode; rest = writing (store v w.mode) w.rest };
}
