-- ===== src/Memory/Choice.antt =====
-- Which block `memory_alloc` picks.
use pine_os.Base.{
  ℕ, ◌+◌, ◌≤◌, ◌<◌, ◌≡◌, refl, ◌⊎◌, inl, inr, true, false, not, ◌&&◌, ltb, leb, Option, some, List,
  [], ◌∷◌, arith, Bool-cases,
}
use pine_os.Memory.{Block, header, find_block, best_fit}
use pine_os.Memory.Tiling.{Tiles, find_block-ge}

-- Each free block of at least `n` bytes has at least `m`.
abbrev pub AtLeast : ℕ → ℕ → List Block → Type 0
AtLeast n m [] = Unit
AtLeast n m (b ∷ bs) = ((b.used ≡ true) ⊎ (b.size < n) ⊎ (m ≤ b.size)) × AtLeast n m bs

AtLeast-mono : (bs : List Block) (n m k : ℕ) → AtLeast n m bs → k ≤ m → AtLeast n k bs
AtLeast-mono [] n m k h le = tt
AtLeast-mono (b ∷ bs) n m k h le = ground (arith, AtLeast-mono bs n m k h.1)

-- A free block with room for `n`, below `limit`, and the smallest such.
pub record Best (n limit : ℕ) (bs : List Block) (c : Block) : Type 0 where
  pub found : find_block c.addr bs ≡ some c
  pub free : c.used ≡ false
  pub room : n ≤ c.size
  pub below : c.size < limit
  pub least : AtLeast n c.size bs

abbrev pub Outcome : ℕ → ℕ → List Block → Option ℕ → Option ℕ → Type 0
Outcome n limit bs best r =
    ((r ≡ best) × AtLeast n limit bs) ⊎ ((c : Block) × (r ≡ some c.addr) × Best n limit bs c)

-- A later best block is also the best of the longer list.
Best-cons :
    (bs : List Block) (b c : Block) (n limit lo hi : ℕ)
    → Tiles lo (b ∷ bs) hi
    → Best n limit bs c
    → ((b.used ≡ true) ⊎ (b.size < n) ⊎ (c.size ≤ b.size))
    → Best n limit (b ∷ bs) c
unfolding find_block
Best-cons bs b c n limit lo hi t r h = record {
  found = ground (arith, r.found, find_block-ge bs (lo + header + b.size) hi c.addr c t.1 r.found);
  free = r.free;
  room = r.room;
  below = r.below;
  least = (h, r.least);
}

Best-limit :
    (bs : List Block) (c : Block) (n limit wider : ℕ)
    → limit ≤ wider
    → Best n limit bs c
    → Best n wider bs c
Best-limit bs c n limit wider le r = record {
  found = r.found;
  free = r.free;
  room = r.room;
  below = omega arith;
  least = r.least;
}

pub best_fit-Outcome :
    (bs : List Block) (n lo hi limit : ℕ) (best : Option ℕ)
    → Tiles lo bs hi
    → Outcome n limit bs best (best_fit n bs best limit)
unfolding best_fit find_block
best_fit-Outcome [] n lo hi limit best t = inl (refl, tt)
best_fit-Outcome (b ∷ bs) n lo hi limit best t =
    elim (Bool-cases (not b.used && leb n b.size && ltb b.size limit)) [
      | inl hit ↦
          rw hit (
            after_hit hit
              (best_fit-Outcome bs n (lo + header + b.size) hi b.size (some b.addr) t.1))
      | inr miss ↦
          rw miss (after_miss miss (best_fit-Outcome bs n (lo + header + b.size) hi limit best t.1))
    ]
  where
    after_hit :
        (not b.used && leb n b.size && ltb b.size limit) ≡ true
        → Outcome n b.size bs (some b.addr) (best_fit n bs (some b.addr) b.size)
        → Outcome n limit (b ∷ bs) best (best_fit n bs (some b.addr) b.size)
    after_hit hit (inl (e, h)) = inr (
      b,
      e,
      record {
        found = ground arith;
        free = ground arith;
        room = ground arith;
        below = ground arith;
        least = (ground arith, h);
      },
    )
    after_hit hit (inr (c, e, r)) = inr (
      c,
      e,
      Best-limit (b ∷ bs) c n b.size limit (ground arith)
          (Best-cons bs b c n b.size lo hi t r (inr (inr (omega (arith, r.below))))),
    )

    after_miss :
        (not b.used && leb n b.size && ltb b.size limit) ≡ false
        → Outcome n limit bs best (best_fit n bs best limit)
        → Outcome n limit (b ∷ bs) best (best_fit n bs best limit)
    after_miss miss (inl (e, h)) = inl (e, (ground arith, h))
    after_miss miss (inr (c, e, r)) =
        inr (c, e, Best-cons bs b c n limit lo hi t r (ground (arith, r.below)))
