-- ===== src/Memory/Inv.antt =====
-- The invariant of the allocator's state.
use pine_os.Base.{
  ℕ, ◌+◌, ◌-◌, ◌≤◌, ◌≡◌, ◌==◌, ◌⊎◌, refl, Bool, true, false, ◌||◌, some, List, [], ◌∷◌,
  if◌then◌else◌, arith,
}
use pine_os.Memory.{
  Block, Heap, header, memory_start, memory_end, find_block, absorb, claim, claim_at, size_at,
  release, merge_next, mark_free,
}
use pine_os.Memory.Tiling.{
  Tiles, Tiles-le, Coalesced, merge_prev-Tiles, merge_next-Tiles, mark_free-Tiles,
}
use pine_os.Memory.Release.{free_at, freed, join}

-- the payload bytes of the blocks in use
abbrev pub used_sum : List Block → ℕ
used_sum [] = 0
used_sum (b ∷ bs) = (if b.used then b.size else 0) + used_sum bs

pub record IsValid (h : Heap) : Type 0 where
  pub tiles : Tiles memory_start h.blocks memory_end
  pub coalesced : Coalesced true h.blocks
  pub counted : h.in_use ≡ used_sum h.blocks
  pub whole : h.total ≡ memory_end - memory_start

Coalesced-true : (bs : List Block) (u : Bool) → Coalesced u bs → Coalesced true bs
Coalesced-true [] u h = tt
Coalesced-true (b ∷ bs) u h = (refl, h.1)

pub used_sum-le : (bs : List Block) (lo hi : ℕ) → Tiles lo bs hi → used_sum bs + lo ≤ hi
used_sum-le [] lo hi t = omega arith
used_sum-le (b ∷ bs) lo hi t = ground (arith, used_sum-le bs (lo + header + b.size) hi t.1)

pub claim_at-Coalesced :
    (bs : List Block) (u : Bool) (p n : ℕ) (c : Block)
    → Coalesced u bs
    → find_block p bs ≡ some c
    → c.used ≡ false
    → Coalesced u (claim_at p n bs)
unfolding claim_at claim find_block
claim_at-Coalesced [] u p n c h e f = tt
claim_at-Coalesced (b ∷ bs) u p n c h e f =
    ground (arith, claim_at-Coalesced bs b.used p n c h.1, Coalesced-true bs b.used h.1)

absorb-Coalesced :
    (bs : List Block) (u : Bool) (b : Block)
    → Coalesced true bs
    → u ≡ true
    → Coalesced u (absorb (freed b) bs)
unfolding absorb
absorb-Coalesced [] u b h e = ground arith
absorb-Coalesced (c ∷ bs) u b h e = ground arith

join-Coalesced :
    (bs : List Block) (u : Bool) (a b : Block)
    → (u || a.used) ≡ true
    → Coalesced true bs
    → Coalesced u (join a (absorb (freed b) bs))
unfolding absorb join
join-Coalesced [] u a b e h = ground arith
join-Coalesced (c ∷ bs) u a b e h = ground arith

-- The block at the front, if it is the one that is freed, has a block in use before it.
abbrev pub Front : Bool → ℕ → List Block → Type 0
Front u p [] = Unit
Front u p (a ∷ bs) = (u ≡ true) ⊎ ((a.addr == p) ≡ false)

pub free_at-Coalesced :
    (bs : List Block) (u : Bool) (p : ℕ) (c : Block)
    → Coalesced u bs
    → Front u p bs
    → find_block p bs ≡ some c
    → c.used ≡ true
    → Coalesced u (free_at p bs)
unfolding free_at find_block
free_at-Coalesced [] u p c h f e w = tt
free_at-Coalesced (a ∷ []) u p c h f e w = ground arith
free_at-Coalesced (a ∷ b ∷ bs) u p c h f e w = ground (
  arith,
  free_at-Coalesced (b ∷ bs) a.used p c h.1,
  absorb-Coalesced (b ∷ bs) u a,
  join-Coalesced bs u a b,
)

pub claim_at-used_sum :
    (bs : List Block) (p n : ℕ) (c : Block)
    → find_block p bs ≡ some c
    → c.used ≡ false
    → used_sum (claim_at p n bs) ≡ used_sum bs + size_at p (claim_at p n bs)
unfolding claim_at claim find_block
claim_at-used_sum [] p n c e f = absurd (ground arith)
claim_at-used_sum (b ∷ bs) p n c e f = ground (arith, claim_at-used_sum bs p n c)

absorb-used_sum : (bs : List Block) (b : Block) → used_sum (absorb (freed b) bs) ≡ used_sum bs
unfolding absorb
absorb-used_sum [] b = refl
absorb-used_sum (c ∷ bs) b = ground arith

join-used_sum :
    (bs : List Block) (a b : Block)
    → used_sum (join a (absorb (freed b) bs)) ≡ used_sum (a ∷ []) + used_sum bs
unfolding absorb join
join-used_sum [] a b = ground arith
join-used_sum (c ∷ bs) a b = ground arith

pub free_at-used_sum :
    (bs : List Block) (p : ℕ) (c : Block)
    → find_block p bs ≡ some c
    → c.used ≡ true
    → used_sum (free_at p bs) + c.size ≡ used_sum bs
unfolding free_at find_block
free_at-used_sum [] p c e f = absurd (ground arith)
free_at-used_sum (a ∷ []) p c e f = ground arith
free_at-used_sum (a ∷ b ∷ bs) p c e f = ground (
  arith,
  free_at-used_sum (b ∷ bs) p c,
  absorb-used_sum (b ∷ bs) a,
  absorb-used_sum bs b,
  join-used_sum bs a b,
)

-- A split leaves what `free_at` joins again.
module _ (hi : ℕ) (small : hi ≤ memory_end) where
  claim-first :
      (bs : List Block) (a : Block) (lo p n : ℕ)
      → Tiles lo (a ∷ bs) hi
      → Coalesced false bs
      → a.addr ≡ p
      → a.used ≡ false
      → n ≤ a.size
      → free_at p (claim n a bs) ≡ a ∷ bs
  unfolding free_at claim absorb
  claim-first [] a lo p n t h e f le = ground arith
  claim-first (b ∷ bs) a lo p n t h e f le =
      ground (arith, Tiles-le bs (lo + header + a.size + header + b.size) hi t.1.1)

  claim-second :
      (bs : List Block) (a b : Block) (lo p n : ℕ)
      → Tiles lo (b ∷ bs) hi
      → Coalesced false bs
      → (a.addr == p) ≡ false
      → a.used ≡ true
      → b.addr ≡ p
      → b.used ≡ false
      → n ≤ b.size
      → free_at p (a ∷ claim n b bs) ≡ a ∷ b ∷ bs
  unfolding free_at claim absorb join
  claim-second [] a b lo p n t h ne w e f le = ground arith
  claim-second (c ∷ bs) a b lo p n t h ne w e f le =
      ground (arith, Tiles-le bs (lo + header + b.size + header + c.size) hi t.1.1)

  pub free_at-claim_at :
      (bs : List Block) (u : Bool) (lo p n : ℕ) (c : Block)
      → Tiles lo bs hi
      → Coalesced u bs
      → find_block p bs ≡ some c
      → c.used ≡ false
      → n ≤ c.size
      → free_at p (claim_at p n bs) ≡ bs
  unfolding free_at claim_at find_block
  free_at-claim_at [] u lo p n c t h e w le = refl
  free_at-claim_at (a ∷ []) u lo p n c t h e w le = ground (arith, claim-first [] a lo p n t)
  free_at-claim_at (a ∷ b ∷ bs) u lo p n c t h e w le = ground (
    arith,
    claim-first (b ∷ bs) a lo p n t,
    claim-second bs a b (lo + header + a.size) p n t.1,
    free_at-claim_at (b ∷ bs) a.used (lo + header + a.size) p n c t.1 h.1,
  )

-- The representation after `memory_free`.
pub release-Tiles :
    (bs : List Block) (lo hi p : ℕ) → hi ≤ memory_end → Tiles lo bs hi → Tiles lo (release p bs) hi
unfolding release
release-Tiles bs lo hi p small t =
    merge_prev-Tiles hi small (merge_next p (mark_free p bs)) lo p
      (merge_next-Tiles hi small (mark_free p bs) lo p (mark_free-Tiles hi small bs lo p t))
