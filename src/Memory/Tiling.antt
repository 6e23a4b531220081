-- ===== src/Memory/Tiling.antt =====
-- The blocks of the allocator tile the managed memory.
use pine_os.Base.{ℕ, ◌+◌, ◌≤◌, ◌≡◌, Bool, true, ◌||◌, some, List, [], ◌∷◌, arith}
use pine_os.Memory.{Block, header, memory_end, find_block, claim_at, claim, mark_free}
use pine_os.Memory.{absorb, merge_next, merge_prev}

-- From `lo` up to `hi` each block begins where the payload of the one before ends.
abbrev pub Tiles : ℕ → List Block → ℕ → Type 0
Tiles lo [] hi = lo ≡ hi
Tiles lo (b ∷ bs) hi = (b.addr ≡ lo) × Tiles (lo + header + b.size) bs hi

-- No two neighbours are both free; the flag says whether the block in front is in use.
abbrev pub Coalesced : Bool → List Block → Type 0
Coalesced u [] = Unit
Coalesced u (b ∷ bs) = ((u || b.used) ≡ true) × Coalesced b.used bs

pub Tiles-le : (bs : List Block) (lo hi : ℕ) → Tiles lo bs hi → lo ≤ hi
Tiles-le [] lo hi t = omega arith
Tiles-le (b ∷ bs) lo hi t = omega (arith, Tiles-le bs (lo + header + b.size) hi t.1)

pub find_block-ge :
    (bs : List Block) (lo hi p : ℕ) (c : Block) → Tiles lo bs hi → find_block p bs ≡ some c → lo ≤ p
unfolding find_block
find_block-ge [] lo hi p c t e = absurd (ground arith)
find_block-ge (b ∷ bs) lo hi p c t e =
    ground (arith, find_block-ge bs (lo + header + b.size) hi p c t.1)

pub find_block-addr : (bs : List Block) (p : ℕ) (c : Block) → find_block p bs ≡ some c → c.addr ≡ p
unfolding find_block
find_block-addr [] p c e = absurd (ground arith)
find_block-addr (b ∷ bs) p c e = ground (arith, find_block-addr bs p c)

-- A block that is found lies inside the tiled range.
pub find_block-end :
    (bs : List Block) (lo hi p : ℕ) (c : Block)
    → Tiles lo bs hi
    → find_block p bs ≡ some c
    → p + header + c.size ≤ hi
unfolding find_block
find_block-end [] lo hi p c t e = absurd (ground arith)
find_block-end (b ∷ bs) lo hi p c t e = ground (
  arith,
  find_block-end bs (lo + header + b.size) hi p c t.1,
  Tiles-le bs (lo + header + b.size) hi t.1,
)

module _ (hi : ℕ) (small : hi ≤ memory_end) where
  pub claim_at-Tiles :
      (bs : List Block) (lo p n : ℕ) (c : Block)
      → Tiles lo bs hi
      → find_block p bs ≡ some c
      → n ≤ c.size
      → Tiles lo (claim_at p n bs) hi
  unfolding claim_at claim find_block
  claim_at-Tiles [] lo p n c t e le = absurd (ground arith)
  claim_at-Tiles (b ∷ bs) lo p n c t e le = ground (
    arith,
    claim_at-Tiles bs (lo + header + b.size) p n c t.1,
    Tiles-le bs (lo + header + b.size) hi t.1,
  )

  pub mark_free-Tiles : (bs : List Block) (lo p : ℕ) → Tiles lo bs hi → Tiles lo (mark_free p bs) hi
  unfolding mark_free
  mark_free-Tiles [] lo p t = t
  mark_free-Tiles (b ∷ bs) lo p t = ground (arith, mark_free-Tiles bs (lo + header + b.size) p t.1)

  pub absorb-Tiles :
      (bs : List Block) (b : Block) (lo : ℕ) → Tiles lo (b ∷ bs) hi → Tiles lo (absorb b bs) hi
  unfolding absorb
  absorb-Tiles [] b lo t = t
  absorb-Tiles (c ∷ bs) b lo t =
      ground (arith, Tiles-le bs (lo + header + b.size + header + c.size) hi t.1.1)

  pub merge_next-Tiles :
      (bs : List Block) (lo p : ℕ) → Tiles lo bs hi → Tiles lo (merge_next p bs) hi
  unfolding merge_next
  merge_next-Tiles [] lo p t = t
  merge_next-Tiles (b ∷ bs) lo p t =
      ground (arith, merge_next-Tiles bs (lo + header + b.size) p t.1, absorb-Tiles bs b lo t)

  pub merge_prev-Tiles :
      (bs : List Block) (lo p : ℕ) → Tiles lo bs hi → Tiles lo (merge_prev p bs) hi
  unfolding merge_prev
  merge_prev-Tiles [] lo p t = t
  merge_prev-Tiles (a ∷ []) lo p t = t
  merge_prev-Tiles (a ∷ b ∷ bs) lo p t = ground (
    arith,
    merge_prev-Tiles (b ∷ bs) (lo + header + a.size) p t.1,
    Tiles-le bs (lo + header + a.size + header + b.size) hi t.1.1,
  )
