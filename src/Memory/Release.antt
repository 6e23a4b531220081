-- ===== src/Memory/Release.antt =====
-- The three passes of `memory_free` over the list, as one.
use pine_os.Base.{
  ℕ, ◌+◌, ◌≤◌, ◌<◌, ◌≡◌, refl, false, List, [], ◌∷◌, ◌==◌, if◌then◌else◌, add32, arith,
}
use pine_os.Memory.{
  Block, block, header, memory_end, mark_free, absorb, merge_next, merge_prev, release,
}
use pine_os.Memory.Tiling.{Tiles}

abbrev pub freed : Block → Block
freed b = block b.addr b.size false

-- A block takes in the head of a list.
unfoldable pub join : Block → List Block → List Block
join a [] = a ∷ []
join a (b ∷ bs) =
    if a.used then a ∷ b ∷ bs else block a.addr (add32 a.size (add32 b.size header)) a.used ∷ bs

unfoldable pub free_at : ℕ → List Block → List Block
free_at p [] = []
free_at p (a ∷ []) = if a.addr == p then freed a ∷ [] else a ∷ []
free_at p (a ∷ b ∷ bs) =
    if a.addr == p
    then absorb (freed a) (b ∷ bs)
    else if b.addr == p
    then join a (absorb (freed b) bs)
    else a ∷ free_at p (b ∷ bs)

-- Past the block that is freed the walk changes nothing.
merge_prev-past :
    (bs : List Block) (a : Block) (lo hi p : ℕ)
    → Tiles lo bs hi
    → p < lo
    → merge_prev p (a ∷ bs) ≡ a ∷ bs
unfolding merge_prev
merge_prev-past [] a lo hi p t h = refl
merge_prev-past (b ∷ bs) a lo hi p t h =
    ground (arith, merge_prev-past bs b (lo + header + b.size) hi p t.1)

module _ (hi : ℕ) (small : hi ≤ memory_end) where
  merge_prev-absorb :
      (bs : List Block) (b : Block) (lo p : ℕ)
      → Tiles lo (b ∷ bs) hi
      → b.addr ≡ p
      → merge_prev p (absorb (freed b) bs) ≡ absorb (freed b) bs
  unfolding absorb merge_prev
  merge_prev-absorb [] b lo p t e = refl
  merge_prev-absorb (c ∷ bs) b lo p t e =
      let end = lo + header + b.size + header + c.size in
      ground (
        arith,
        merge_prev-past (c ∷ bs) (freed b) (lo + header + b.size) hi p t.1,
        merge_prev-past bs (block b.addr (add32 b.size (add32 c.size header)) false) end hi p t.1.1,
      )

  release-head :
      (bs : List Block) (a : Block) (lo p : ℕ)
      → Tiles lo (a ∷ bs) hi
      → a.addr ≡ p
      → release p (a ∷ bs) ≡ absorb (freed a) bs
  unfolding release mark_free merge_next
  release-head bs a lo p t e = ground (arith, merge_prev-absorb bs a lo p t)

  merge_prev-join :
      (bs : List Block) (a b : Block) (p : ℕ)
      → b.addr ≡ p
      → merge_prev p (a ∷ absorb (freed b) bs) ≡ join a (absorb (freed b) bs)
  unfolding merge_prev absorb join
  merge_prev-join [] a b p e = ground arith
  merge_prev-join (c ∷ bs) a b p e = ground arith

  -- `memory_free`'s walk, merge with the next block and merge with the previous one.
  pub release-free_at : (bs : List Block) (lo p : ℕ) → Tiles lo bs hi → release p bs ≡ free_at p bs
  unfolding free_at
  release-free_at [] lo p t = unfold release mark_free merge_next merge_prev in refl
  release-free_at (a ∷ []) lo p t =
      unfold release mark_free merge_next merge_prev absorb in ground arith
  release-free_at (a ∷ b ∷ bs) lo p t = ground (
    arith,
    release-head (b ∷ bs) a lo p t,
    second,
    later,
    release-free_at (b ∷ bs) (lo + header + a.size) p t.1,
  )
    where
      second :
          (a.addr == p) ≡ false → b.addr ≡ p → release p (a ∷ b ∷ bs) ≡ join a (absorb (freed b) bs)
      second ne e =
          unfold release mark_free merge_next in ground (arith, merge_prev-join bs a b p e)

      later :
          (a.addr == p) ≡ false
          → (b.addr == p) ≡ false
          → release p (a ∷ b ∷ bs) ≡ a ∷ release p (b ∷ bs)
      later ne ne' = unfold release mark_free merge_next merge_prev in ground arith
