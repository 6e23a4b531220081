-- ===== src/Memory/Alloc.antt =====
-- What `memory_alloc` returns and leaves.
use pine_os.Base.{
  ℕ, ltb, ◌+◌, ◌-◌, ◌≤◌, ◌<◌, ◌≡◌, ◌≢◌, ◌==◌, ◌⊎◌, inl, inr, refl, true, false, some, none, Option,
  ap, List, [], ◌∷◌, if◌then◌else◌, arith, add32, Bool-cases,
}
use pine_os.Memory.{
  Block, block, Heap, header, null, memory_start, memory_end, align4, find_block, grant, claim,
  claim_at, size_at, memory_alloc, memory_init, best_fit,
}
use pine_os.Memory.Tiling.{Tiles, Tiles-le, find_block-ge, find_block-end, claim_at-Tiles}
use pine_os.Memory.Choice.{AtLeast, Best, Outcome, best_fit-Outcome}
use pine_os.Memory.Inv.{IsValid, used_sum-le, claim_at-Coalesced, claim_at-used_sum}

-- The state after the block `c` has been claimed for `n` bytes.
abbrev pub claimed : ℕ → Block → Heap → Heap
claimed n c h =
    let bs = claim_at c.addr n h.blocks in
    record h { blocks = bs; in_use = add32 h.in_use (size_at c.addr bs) }

-- Either nothing happens, and no free block has room; or the best block is claimed.
abbrev pub Answer : ℕ → Heap → ℕ × Heap → Type 0
Answer size h r =
    ((r ≡ (null, h)) × ((size ≡ 0) ⊎ AtLeast (align4 size) 0xffff_ffff h.blocks))
    ⊎ ((c : Block) × (r ≡ (c.addr + header, claimed (align4 size) c h))
        × (size ≢ 0)
        × Best (align4 size) 0xffff_ffff h.blocks c)

granted :
    (n : ℕ) (h : Heap) (c : Block)
    → IsValid h
    → Best n 0xffff_ffff h.blocks c
    → grant n h (some c.addr) ≡ (c.addr + header, claimed n c h)
unfolding grant
granted n h c v b =
    ap (λ (p : ℕ). (p, claimed n c h))
      (omega (arith, find_block-end h.blocks memory_start memory_end c.addr c v.tiles b.found))

-- On a valid heap a call of `memory_alloc` returns null and changes nothing if the size is 0 or no
-- free block has room for the aligned size; otherwise it claims the smallest free block with room
-- and returns the address of that block's payload.
pub memory_alloc-Answer : (size : ℕ) (h : Heap) → IsValid h → Answer size h (memory_alloc size h)
unfolding memory_alloc
memory_alloc-Answer size h v = elim (Bool-cases (size == 0)) [
  | inl z ↦ rw z (inl (refl, inl (ground arith)))
  | inr nz ↦ rw nz (
      from (ground arith) _
        (best_fit-Outcome h.blocks (align4 size) memory_start memory_end 0xffff_ffff none v.tiles))
]
  where
    from :
        (size ≢ 0)
        → (r : Option ℕ) → Outcome (align4 size) 0xffff_ffff h.blocks none r
        → Answer size h (grant (align4 size) h r)
    from ne r (inl (e, a)) = rw e (inl (unfold grant in refl, inr a))
    from ne r (inr (c, e, b)) = rw e (inr (c, granted _ h c v b, ne, b))

pub claimed-IsValid :
    (n : ℕ) (h : Heap) (c : Block)
    → IsValid h
    → Best n 0xffff_ffff h.blocks c
    → IsValid (claimed n c h)
claimed-IsValid n h c v b =
    let t =
      claim_at-Tiles memory_end (omega arith) h.blocks memory_start c.addr n c v.tiles b.found
        b.room in
    let s = claim_at-used_sum h.blocks c.addr n c b.found b.free in
    record {
      tiles = t;
      coalesced = claim_at-Coalesced h.blocks true c.addr n c v.coalesced b.found b.free;
      counted =
          omega (
            arith,
            s,
            used_sum-le (claim_at c.addr n h.blocks) memory_start memory_end t,
            v.counted,
          );
      whole = v.whole;
    }

-- `memory_alloc` keeps the invariant, whatever the size.
pub memory_alloc-IsValid : (size : ℕ) (h : Heap) → IsValid h → IsValid (memory_alloc size h).1
memory_alloc-IsValid size h v = elim (memory_alloc-Answer size h v) [
  | inl (e, _) ↦ rw e v
  | inr (c, e, _, b) ↦ rw e (claimed-IsValid _ h c v b)
]

-- The block that the caller gets out of the free block `c`.
abbrev pub granted_block : ℕ → Block → Block
granted_block n c =
    if ltb (add32 n (header + 16)) c.size then block c.addr n true else block c.addr c.size true

pub claim_at_self :
    (bs : List Block) (p n : ℕ) (c : Block)
    → find_block p bs ≡ some c
    → find_block p (claim_at p n bs) ≡ some (granted_block n c)
unfolding claim_at claim find_block
claim_at_self [] p n c e = absurd (ground arith)
claim_at_self (b ∷ bs) p n c e = ground (arith, claim_at_self bs p n c)

pub claim_at-other :
    (bs : List Block) (p q n lo hi : ℕ) (c b : Block)
    → Tiles lo bs hi
    → hi ≤ memory_end
    → find_block p bs ≡ some c
    → n ≤ c.size
    → q ≢ p
    → find_block q bs ≡ some b
    → find_block q (claim_at p n bs) ≡ some b
unfolding claim_at claim find_block
claim_at-other [] p q n lo hi c b t small f le ne e = absurd (ground arith)
claim_at-other (a ∷ bs) p q n lo hi c b t small f le ne e = ground (
  arith,
  claim_at-other bs p q n (lo + header + a.size) hi c b t.1,
  find_block-ge bs (lo + header + a.size) hi q b t.1,
  Tiles-le bs (lo + header + a.size) hi t.1,
)

-- Two blocks of a tiled range do not overlap.
pub find_block-disjoint :
    (bs : List Block) (lo hi p q : ℕ) (b c : Block)
    → Tiles lo bs hi
    → find_block p bs ≡ some b
    → find_block q bs ≡ some c
    → p < q
    → p + header + b.size ≤ q
unfolding find_block
find_block-disjoint [] lo hi p q b c t e f lt = absurd (ground arith)
find_block-disjoint (a ∷ bs) lo hi p q b c t e f lt = ground (
  arith,
  find_block-disjoint bs (lo + header + a.size) hi p q b c t.1,
  find_block-ge bs (lo + header + a.size) hi q c t.1,
  find_block-ge bs (lo + header + a.size) hi p b t.1,
)

module _ (size : ℕ) (h : Heap) (v : IsValid h) (got : (memory_alloc size h).0 ≢ null) where
  back : (p : ℕ) → p + header - header ≡ p
  back p = omega arith

  abbrev pub Taken : Type 0
  Taken =
      (c : Block) × (memory_alloc size h ≡ (c.addr + header, claimed (align4 size) c h))
      × Best (align4 size) 0xffff_ffff h.blocks c

  pub taken : Taken
  taken = elim (memory_alloc-Answer size h v) [
    | inl (e, _) ↦ absurd (got (rw e))
    | inr (c, e, _, b) ↦ (c, e, b)
  ]

  -- What `memory_alloc` hands out of a valid heap, if not null, was free before, is marked in use
  -- after, has at least the size asked for rounded up to words, and lies inside the managed memory.
  pub memory_alloc-fresh :
      let (p, h') = memory_alloc size h in
      (c d : Block) × (find_block (p - header) h.blocks ≡ some c)
      × (c.used ≡ false)
      × (find_block (p - header) h'.blocks ≡ some d)
      × (d.used ≡ true)
      × (align4 size ≤ d.size)
      × (memory_start + header ≤ p)
      × (p + d.size ≤ memory_end)
  memory_alloc-fresh =
      let (c, e, best) = taken in
      let n = align4 size in
      let end = find_block-end h.blocks memory_start memory_end c.addr c v.tiles best.found in
      rw (e, back c.addr)
        (
          c,
          granted_block n c,
          best.found,
          best.free,
          claim_at_self h.blocks c.addr n c best.found,
          ground arith,
          ground (arith, best.room),
          omega (arith, find_block-ge h.blocks memory_start memory_end c.addr c v.tiles best.found),
          ground (arith, end, best.room),
        )

  -- The payload that `memory_alloc` hands out of a valid heap, if not null, overlaps no block that
  -- is in use.
  pub memory_alloc-disjoint :
      (q : ℕ) (b : Block)
      → find_block q h.blocks ≡ some b
      → b.used ≡ true
      → let (p, h') = memory_alloc size h in
        (p + size_at (p - header) h'.blocks ≤ q) ⊎ (q + header + b.size ≤ p - header)
  memory_alloc-disjoint q b e w =
      let (c, eq, best) = taken in
      rw (eq, back c.addr)
        (ground (
          arith,
          claim_at_self h.blocks c.addr (align4 size) c best.found,
          best.found,
          best.free,
          best.room,
          not_same c best,
          find_block-disjoint h.blocks memory_start memory_end c.addr q c b v.tiles,
          find_block-disjoint h.blocks memory_start memory_end q c.addr b c v.tiles,
        ))
    where
      not_same : (c : Block) → Best (align4 size) 0xffff_ffff h.blocks c → q ≢ c.addr
      not_same c best same = ground (arith, best.found, best.free)

-- Every block of a valid heap that is in use is found unchanged after a call of `memory_alloc`.
pub memory_alloc-frame :
    (size : ℕ) (h : Heap) (q : ℕ) (b : Block)
    → IsValid h
    → find_block q h.blocks ≡ some b
    → b.used ≡ true
    → find_block q (memory_alloc size h).1.blocks ≡ some b
memory_alloc-frame size h q b v e w = elim (memory_alloc-Answer size h v) [
  | inl (eq, _) ↦ rw eq e
  | inr (c, eq, _, best) ↦ rw eq (
      claim_at-other h.blocks c.addr q (align4 size) memory_start memory_end c b v.tiles
        (omega arith) best.found best.room (λ same. ground arith) e)
]

-- A request of 2^32 - 3 bytes or more, up to the largest `unsigned int`, is rounded up to 0 and
-- served: from the heap of boot it returns a pointer to a block without a byte of payload.
pub memory_alloc-wrap :
    (size : ℕ)
    → 0xffff_fffd ≤ size
    → size < 0x1_0000_0000
    → memory_alloc size memory_init ≡ (
      memory_start + header,
      record memory_init {
        blocks = block memory_start 0 true ∷ block (memory_start + header) 0xe_ffe8 false ∷ [];
      },
    )
unfolding memory_alloc memory_init
memory_alloc-wrap size ge lt =
    let z : align4 size ≡ 0 = omega arith in
    let nz : (size == 0) ≡ false = ground arith in
    rw (nz, z) (unfold best_fit grant claim_at claim find_block in refl)

-- For a request of less than 2^32 - 3 bytes, `memory_alloc` on a valid heap returns null or a block
-- in use with at least the bytes asked for.
pub memory_alloc-enough :
    (size : ℕ) (h : Heap)
    → IsValid h
    → (memory_alloc size h).0 ≢ null
    → size < 0xffff_fffd
    → (d : Block) × (find_block ((memory_alloc size h).0 - header) (memory_alloc size h).1.blocks
        ≡ some d)
      × (d.used ≡ true)
      × (size ≤ d.size)
memory_alloc-enough size h v got lt =
    let (c, d, e, f, at, u, le, lo, hi) = memory_alloc-fresh size h v got in (d, at, u, omega arith)
