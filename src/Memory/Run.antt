-- ===== src/Memory/Run.antt =====
-- Calls of the allocator in a row, from boot on.
use pine_os.Base.{ℕ, ◌≡◌, refl, some, arith}
use pine_os.Memory.{Heap, memory_init, memory_alloc, memory_free}
use pine_os.Memory.Inv.{IsValid}
use pine_os.Memory.Alloc.{memory_alloc-IsValid}
use pine_os.Memory.Free.{memory_free-IsValid}

-- One step of a caller: it asks for `n` bytes, or gives a pointer back.
pub data Step : Heap → Heap → Type 0 where
  alloc : (n : ℕ) (h : Heap) → Step h (memory_alloc n h).1
  free : (p : ℕ) {h g : Heap} → memory_free p h ≡ some g → Step h g

-- The heaps that `memory_init` and any calls after it lead to.
pub data Reach : Heap → Type 0 where
  boot : Reach memory_init
  next : {h g : Heap} → Reach h → Step h g → Reach g

memory_init-IsValid : IsValid memory_init
unfolding memory_init
memory_init-IsValid = record {
  tiles = omega arith;
  coalesced = (refl, tt);
  counted = refl;
  whole = refl;
}

-- Every heap that calls of `memory_alloc` and `memory_free` reach from `memory_init` is valid: its
-- blocks tile the managed memory, no two free blocks are neighbours, and `memory_used` is the sum
-- of the sizes of the blocks in use.
pub Reach-IsValid : {h : Heap} → Reach h → IsValid h
Reach-IsValid boot = memory_init-IsValid
Reach-IsValid (next r (alloc n h)) = memory_alloc-IsValid n h (Reach-IsValid r)
Reach-IsValid (next {h} {g} r (free p e)) = memory_free-IsValid p h g (Reach-IsValid r) e
