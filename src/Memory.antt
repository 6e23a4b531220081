-- ===== src/Memory.antt =====
-- The allocator of kernel/memory.c.
pub mod Tiling
pub mod Choice
pub mod Release
pub mod Inv
pub mod Alloc
pub mod Free
pub mod Run
pub mod Usage
mod Tests
use pine_os.Base.{
  ℕ, ◌+◌, ◌*◌, ◌/◌, ◌-◌, Bool, true, false, ◌&&◌, Option, none, some, List, [], ◌∷◌, ltb, leb, ◌==◌,
  if◌then◌else◌, not, add32, sub32,
}

-- `memory_block_t`, with the address at which its header stands.
-- The order of a list of blocks is that of the `next` pointers.
pub record Block : Type 0 where
  pub addr : ℕ
  pub size : ℕ
  pub used : Bool

abbrev pub block : ℕ → ℕ → Bool → Block
block p n u = record { addr = p; size = n; used = u }

-- `memory_head` with what it reaches, `memory_total` and `memory_used`
pub record Heap : Type 0 where
  pub blocks : List Block
  pub total : ℕ
  pub in_use : ℕ

abbrev pub memory_start : ℕ
memory_start = 0x10000

abbrev pub memory_end : ℕ
memory_end = 0x100000

-- `sizeof(memory_block_t)`: three 32-bit words
abbrev pub header : ℕ
header = 12

abbrev pub null : ℕ
null = 0

unfoldable pub memory_init : Heap
memory_init = record {
  blocks = block memory_start (memory_end - memory_start - header) false ∷ [];
  total = memory_end - memory_start;
  in_use = 0;
}

-- `(size + 3) & ~3`
abbrev pub align4 : ℕ → ℕ
align4 n = add32 n 3 / 4 * 4

-- The scan: the address of the best block so far and its size.
unfoldable pub best_fit : ℕ → List Block → Option ℕ → ℕ → Option ℕ
best_fit n [] best best_size = best
best_fit n (b ∷ bs) best best_size =
    let hit = not b.used && leb n b.size && ltb b.size best_size in
    best_fit n bs (if hit then some b.addr else best) (if hit then b.size else best_size)

-- A block that is taken, in front of the blocks behind it; it is split when much is left over.
unfoldable pub claim : ℕ → Block → List Block → List Block
claim n b bs =
    if ltb (add32 n (header + 16)) b.size
    then block b.addr n true
      ∷ block (add32 b.addr (header + n)) (sub32 (sub32 b.size n) header) false
      ∷ bs
    else block b.addr b.size true ∷ bs

unfoldable pub claim_at : ℕ → ℕ → List Block → List Block
claim_at p n [] = []
claim_at p n (b ∷ bs) = if b.addr == p then claim n b bs else b ∷ claim_at p n bs

-- the header at an address
unfoldable pub find_block : ℕ → List Block → Option Block
find_block p [] = none
find_block p (b ∷ bs) = if b.addr == p then some b else find_block p bs

abbrev pub size_at : ℕ → List Block → ℕ
size_at p bs = elim (find_block p bs) [ none ↦ 0 | some b ↦ b.size ]

-- What follows the scan: the block at `p`, if there is one, is claimed.
unfoldable pub grant : ℕ → Heap → Option ℕ → ℕ × Heap
grant n h none = (null, h)
grant n h (some p) =
    let bs = claim_at p n h.blocks in
    (add32 p header, record h { blocks = bs; in_use = add32 h.in_use (size_at p bs) })

-- `size` is an `unsigned int`; the result is the pointer, `null` when there is no room.
unfoldable pub memory_alloc : ℕ → Heap → ℕ × Heap
memory_alloc size h =
    if size == 0
    then (null, h)
    else grant (align4 size) h (best_fit (align4 size) h.blocks none 0xffff_ffff)

-- `block->used = 0`
unfoldable pub mark_free : ℕ → List Block → List Block
mark_free p [] = []
mark_free p (b ∷ bs) = if b.addr == p then block b.addr b.size false ∷ bs else b ∷ mark_free p bs

-- the block takes in its successor, if that is free
unfoldable pub absorb : Block → List Block → List Block
absorb b [] = b ∷ []
absorb b (c ∷ bs) =
    if c.used then b ∷ c ∷ bs else block b.addr (add32 b.size (add32 c.size header)) b.used ∷ bs

unfoldable pub merge_next : ℕ → List Block → List Block
merge_next p [] = []
merge_next p (b ∷ bs) = if b.addr == p then absorb b bs else b ∷ merge_next p bs

-- the walk to the block whose successor is at `p`
unfoldable pub merge_prev : ℕ → List Block → List Block
merge_prev p [] = []
merge_prev p (a ∷ []) = a ∷ []
merge_prev p (a ∷ b ∷ bs) =
    if b.addr == p
    then if a.used
      then a ∷ b ∷ bs
      else block a.addr (add32 a.size (add32 b.size header)) a.used ∷ bs
    else a ∷ merge_prev p (b ∷ bs)

unfoldable pub release : ℕ → List Block → List Block
release p bs = merge_prev p (merge_next p (mark_free p bs))

-- What `memory_free` does at a header; `none` means that there is no header, so that the code
-- would take other memory for one.
unfoldable pub free_block : ℕ → Heap → Option Block → Option Heap
free_block p h none = none
free_block p h (some b) =
    if b.used
    then some (record h { blocks = release p h.blocks; in_use = sub32 h.in_use b.size })
    else some h

unfoldable pub memory_free : ℕ → Heap → Option Heap
memory_free ptr h =
    if ptr == null
    then some h
    else free_block (sub32 ptr header) h (find_block (sub32 ptr header) h.blocks)

unfoldable pub memory_get_free : Heap → ℕ
memory_get_free h = sub32 h.total h.in_use
