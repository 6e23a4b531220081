-- ===== src/Memory/Usage.antt =====
-- What requests take from the allocator.
use pine_os.Base.{ℕ, ◌+◌, ◌≤◌, ◌<◌, ◌≢◌, arith}
use pine_os.Memory.{
  Block, Heap, align4, claim_at, size_at, memory_alloc, null, memory_start, memory_end,
}
use pine_os.Memory.Inv.{IsValid, used_sum-le, claim_at-used_sum}
use pine_os.Memory.Alloc.{granted_block, claim_at_self, taken, claimed-IsValid}

-- The bytes in use are bounded by the memory that the allocator manages.
pub in_use-le : (h : Heap) → IsValid h → h.in_use + memory_start ≤ memory_end
in_use-le h v = omega (arith, v.counted, used_sum-le h.blocks memory_start memory_end v.tiles)

granted-le : (n : ℕ) (c : Block) → n ≤ c.size → n ≤ (granted_block n c).size
granted-le n c le = ground arith

-- A request that is served counts at least its size to the bytes in use.
pub memory_alloc-in_use :
    (size : ℕ) (h : Heap)
    → IsValid h
    → size < 0x1000_0000
    → (memory_alloc size h).0 ≢ null
    → h.in_use + size ≤ (memory_alloc size h).1.in_use
memory_alloc-in_use size h v small got =
    let (c, e, best) = taken size h v got in
    let n = align4 size in
    let v' = claimed-IsValid n h c v best in
    let s = claim_at-used_sum h.blocks c.addr n c best.found best.free in
    let k : n ≤ size_at c.addr (claim_at c.addr n h.blocks) =
      rw (claim_at_self h.blocks c.addr n c best.found, size_at) (granted-le n c best.room) in
    let a : size ≤ n = omega (arith, small) in rw e (omega (arith, v'.counted, s, v.counted, k, a))
