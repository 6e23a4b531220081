-- ===== src/Memory/Free.antt =====
-- What `memory_free` leaves, and that it undoes `memory_alloc`.
use pine_os.Base.{
  ℕ, ◌+◌, ◌≡◌, ◌≢◌, ◌==◌, inl, inr, refl, true, false, some, none, Option, ap, ◌∙◌, List, [], ◌∷◌,
  arith, sub32, Bool-cases, subst,
}
use pine_os.Memory.{
  Block, Heap, header, null, memory_start, memory_end, align4, find_block, size_at, memory_alloc,
  memory_free, memory_get_free, free_block, release, absorb,
}
use pine_os.Memory.Tiling.{find_block-end}
use pine_os.Memory.Choice.{Best}
use pine_os.Memory.Release.{free_at, freed, join, release-free_at}
use pine_os.Memory.Inv.{
  IsValid, used_sum-le, claim_at-used_sum, free_at-Coalesced, free_at-used_sum, free_at-claim_at,
  release-Tiles, Front,
}
use pine_os.Memory.Alloc.{claimed, claimed-IsValid, granted_block, claim_at_self, taken}

-- The state after the block `b` at `p` has been given back.
abbrev pub released : ℕ → Block → Heap → Heap
released p b h = record h { blocks = release p h.blocks; in_use = sub32 h.in_use b.size }

released-IsValid :
    (h : Heap) (p : ℕ) (b : Block)
    → IsValid h
    → find_block p h.blocks ≡ some b
    → b.used ≡ true
    → IsValid (released p b h)
released-IsValid h p b v e w =
    let one = release-free_at memory_end (omega arith) h.blocks memory_start p v.tiles in
    let s = free_at-used_sum h.blocks p b e w in
    record {
      tiles = release-Tiles h.blocks memory_start memory_end p (omega arith) v.tiles;
      coalesced = rw one (free_at-Coalesced h.blocks true p b v.coalesced (front h.blocks) e w);
      counted =
          rw one
            (omega (arith, s, used_sum-le h.blocks memory_start memory_end v.tiles, v.counted));
      whole = v.whole;
    }
  where
    front : (bs : List Block) → Front true p bs
    front [] = tt
    front (_ ∷ _) = inl refl

free_block-IsValid :
    (h h' : Heap) (p : ℕ) (o : Option Block)
    → IsValid h
    → find_block p h.blocks ≡ o
    → free_block p h o ≡ some h'
    → IsValid h'
unfolding free_block
free_block-IsValid h h' p none v e f = absurd (cc)
free_block-IsValid h h' p (some b) v e f = elim (Bool-cases b.used) [
  | inl w ↦
      let q : released p b h ≡ h' = ground arith in subst IsValid q (released-IsValid h p b v e w)
  | inr n ↦ let q : h ≡ h' = ground arith in subst IsValid q v
]

-- `memory_free` keeps the invariant, of whatever pointer it has a result.
pub memory_free-IsValid :
    (ptr : ℕ) (h h' : Heap) → IsValid h → memory_free ptr h ≡ some h' → IsValid h'
unfolding memory_free
memory_free-IsValid ptr h h' v e =
    let p = sub32 ptr header in
    elim (Bool-cases (ptr == null)) [
      | inl z ↦ let q : h ≡ h' = ground arith in subst IsValid q v
      | inr n ↦
          let q : free_block p h (find_block p h.blocks) ≡ some h' = ground arith in
          free_block-IsValid h h' p _ v refl q
    ]

absorb-other :
    (bs : List Block) (b : Block) (q : ℕ) (c : Block)
    → (b.addr == q) ≡ false
    → find_block q bs ≡ some c
    → c.used ≡ true
    → find_block q (absorb (freed b) bs) ≡ some c
unfolding absorb find_block
absorb-other [] b q c ne e w = absurd (ground arith)
absorb-other (a ∷ bs) b q c ne e w = ground arith

join-other :
    (bs : List Block) (a b : Block) (q : ℕ) (c : Block)
    → (b.addr == q) ≡ false
    → find_block q (a ∷ bs) ≡ some c
    → c.used ≡ true
    → find_block q (join a (absorb (freed b) bs)) ≡ some c
unfolding join absorb find_block
join-other [] a b q c ne e w = ground arith
join-other (d ∷ bs) a b q c ne e w = ground arith

free_at-other :
    (bs : List Block) (p q : ℕ) (c : Block)
    → q ≢ p
    → find_block q bs ≡ some c
    → c.used ≡ true
    → find_block q (free_at p bs) ≡ some c
unfolding free_at find_block
free_at-other [] p q c ne e w = absurd (ground arith)
free_at-other (a ∷ []) p q c ne e w = ground arith
free_at-other (a ∷ b ∷ bs) p q c ne e w =
    ground (arith, free_at-other (b ∷ bs) p q c, absorb-other (b ∷ bs) a q c, join-other bs a b q c)

module _ (h : Heap) (v : IsValid h) (p : ℕ) (b : Block) (e : find_block p h.blocks ≡ some b) where
  pointer : (sub32 (p + header) header ≡ p) × (((p + header) == null) ≡ false)
  pointer = ground (arith, find_block-end h.blocks memory_start memory_end p b v.tiles e)

  -- A block in use is released.
  pub memory_free-live : b.used ≡ true → memory_free (p + header) h ≡ some (released p b h)
  unfolding memory_free free_block
  memory_free-live w = rw (pointer.0, pointer.1, e, w)

  -- A header that is not in use is left alone: a second free does nothing.
  pub memory_free-twice : b.used ≡ false → memory_free (p + header) h ≡ some h
  unfolding memory_free free_block
  memory_free-twice w = rw (pointer.0, pointer.1, e, w)

  -- On a valid heap, a free of the payload of a block in use has a result, every other block in
  -- use is found unchanged in it, and `memory_get_free` has grown by the size of the block.
  pub memory_free-frame :
      (q : ℕ) (c : Block)
      → b.used ≡ true
      → q ≢ p
      → find_block q h.blocks ≡ some c
      → c.used ≡ true
      → (h' : Heap) × (memory_free (p + header) h ≡ some h')
        × (find_block q h'.blocks ≡ some c)
        × (memory_get_free h' ≡ memory_get_free h + b.size)
  unfolding memory_get_free
  memory_free-frame q c w ne f u = (
    released p b h,
    memory_free-live w,
    rw (release-free_at memory_end (omega arith) h.blocks memory_start p v.tiles)
        (free_at-other h.blocks p q c ne f u),
    omega (
      arith,
      free_at-used_sum h.blocks p b e w,
      used_sum-le h.blocks memory_start memory_end v.tiles,
      v.counted,
      v.whole,
    ),
  )

released-claimed :
    (n : ℕ) (h : Heap) (c : Block)
    → IsValid h
    → Best n 0xffff_ffff h.blocks c
    → released c.addr (granted_block n c) (claimed n c h) ≡ h
released-claimed n h c v b =
    let v' = claimed-IsValid n h c v b in
    let self = claim_at_self h.blocks c.addr n c b.found in
    let one : release c.addr (claimed n c h).blocks ≡ h.blocks =
      release-free_at memory_end (omega arith) (claimed n c h).blocks memory_start c.addr v'.tiles
      ∙ free_at-claim_at memory_end (omega arith) h.blocks true memory_start c.addr n c v.tiles
          v.coalesced b.found b.free b.room in
    let two : size_at c.addr (claimed n c h).blocks ≡ (granted_block n c).size =
      ground (arith, self) in
    let le = used_sum-le (claimed n c h).blocks memory_start memory_end v'.tiles in
    let three : sub32 (claimed n c h).in_use (granted_block n c).size ≡ h.in_use = rw (← two) (
      omega
        (arith, le, v'.counted, claim_at-used_sum h.blocks c.addr n c b.found b.free, v.counted)) in
    λ i. record { blocks = one i; total = h.total; in_use = three i }

-- Freeing what `memory_alloc` handed out gives back the very heap of before, headers, order and
-- count of the bytes in use.
pub memory_free-memory_alloc :
    (size : ℕ) (h : Heap)
    → IsValid h
    → (memory_alloc size h).0 ≢ null
    → memory_free (memory_alloc size h).0 (memory_alloc size h).1 ≡ some h
memory_free-memory_alloc size h v got =
    let (c, e, best) = taken size h v got in
    rw e (
      memory_free-live (claimed (align4 size) c h) (claimed-IsValid (align4 size) h c v best) c.addr
        (granted_block (align4 size) c) (claim_at_self h.blocks c.addr (align4 size) c best.found)
        (ground arith)
      ∙ ap some (released-claimed (align4 size) h c v best))
