-- ===== src/Machine.antt =====
-- The state that the kernel's parts share, and commands over it.
use Prim.Native.Char.{code}
use Prim.Native.String.{String}
use pine_os.Base.{ℕ, Bool, Option, none, some, List, [], ◌∷◌, ◌++◌, ◌==◌, if◌then◌else◌}
use pine_os.Memory.{Heap, memory_alloc, memory_free}
use pine_os.Ram.{Ram}

-- `file_entry_t`; an entry pointer is an index of the table `fs.entries`, and `none` the null one.
pub record Entry : Type 0 where
  pub name : List ℕ
  pub kind : ℕ
  pub size : ℕ
  pub content : ℕ
  pub parent : Option ℕ
  pub children : Option ℕ
  pub next : Option ℕ
  pub used : Bool

-- The file system's globals, the allocator's, the bytes of memory, and all that has been handed to
-- `vga_putchar` so far.
pub record State : Type 0 where
  pub entries : ℕ → Entry
  pub next_entry : ℕ
  pub root : ℕ
  pub current_dir : ℕ
  pub heap : Heap
  pub ram : Ram
  pub console : List ℕ

-- A fault is an access through a null or wild pointer, or past the end of a buffer.
pub data Run (A : Type 0) : Type 0 where
  ok : A → State → Run A
  fault : Run A
  out_of_fuel : Run A

abbrev pub Cmd : Type 0 → Type 0
Cmd A = State → Run A

abbrev pub pure : {A : Type 0} → A → Cmd A
pure = ok

abbrev pub crash : {A : Type 0} → Cmd A
crash s = fault

module _ {A B : Type 0} where
  abbrev pub and_then : Run A → (A → Cmd B) → Run B
  and_then (ok a s) k = k a s
  and_then fault k = fault
  and_then out_of_fuel k = out_of_fuel

  infixl 5 ◌>>=◌ ◌>>◌
  abbrev pub ◌>>=◌ : Cmd A → (A → Cmd B) → Cmd B
  m >>= k = λ s. and_then (m s) k

  abbrev pub ◌>>◌ : Cmd A → Cmd B → Cmd B
  m >> n = m >>= λ _. n

-- a text literal as bytes
unfoldable pub codes : String → List ℕ
codes String.[] = []
codes (String.◌∷◌ c s) = code c ∷ codes s

-- `vga_puts(text)`
unfoldable pub puts : List ℕ → Cmd (Unit {0})
puts t s = ok tt (record s { console = s.console ++ t })

abbrev pub say : String → Cmd (Unit {0})
say t = puts (codes t)

unfoldable pub set_entry : (ℕ → Entry) → ℕ → Entry → ℕ → Entry
set_entry es i e j = if j == i then e else es j

unfoldable pub alloc : ℕ → Cmd ℕ
alloc n s = let (p, h) = memory_alloc n s.heap in ok p (record s { heap = h })

unfoldable pub free : ℕ → Cmd (Unit {0})
free p s = elim (memory_free p s.heap) [ none ↦ fault | some h ↦ ok tt (record s { heap = h }) ]

-- `e->field = ...` for the entry at `i`
unfoldable pub update : ℕ → (Entry → Entry) → Cmd (Unit {0})
update i f s = ok tt (record s { entries = set_entry s.entries i (f (s.entries i)) })

unfoldable pub read_entry : ℕ → Cmd Entry
read_entry i s = ok (s.entries i) s
