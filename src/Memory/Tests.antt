-- ===== src/Memory/Tests.antt =====
-- The allocator on a heap with one block in use.
use pine_os.Base.{◌+◌, ◌-◌, ◌≤◌, ◌≡◌, ◌≢◌, ◌⊎◌, [], ◌∷◌, refl, true, false, some, arith}
use pine_os.Memory.{
  Block, Heap, block, header, null, memory_start, memory_init, memory_alloc, memory_free,
  memory_get_free, find_block, size_at, best_fit, grant, claim_at, claim,
}
use pine_os.Memory.Inv.{IsValid}
use pine_os.Memory.Alloc.{memory_alloc-disjoint, memory_alloc-frame, memory_alloc-wrap}
use pine_os.Memory.Free.{memory_free-frame, memory_free-memory_alloc}
use pine_os.Memory.Run.{Reach, boot, next, alloc, Reach-IsValid}

abbrev first : Block
first = block memory_start 12 true

-- after a request of 10 bytes
abbrev one_block : Heap
one_block = (memory_alloc 10 memory_init).1

one_block-Reach : Reach one_block
one_block-Reach = next boot (alloc 10 memory_init)

one_block-IsValid : IsValid one_block
one_block-IsValid = Reach-IsValid one_block-Reach

find-first : find_block memory_start one_block.blocks ≡ some first
unfolding memory_alloc memory_init best_fit grant claim_at claim find_block
find-first = refl

got_20 : (memory_alloc 20 one_block).0 ≢ null
unfolding memory_alloc memory_init best_fit grant claim_at claim find_block
got_20 = ground arith

got_10 : (memory_alloc 10 memory_init).0 ≢ null
unfolding memory_alloc memory_init best_fit grant claim_at claim find_block
got_10 = ground arith

free-first : memory_free (memory_start + header) one_block ≡ some memory_init
unfolding memory_alloc memory_init best_fit grant claim_at claim find_block
free-first = memory_free-memory_alloc 10 memory_init (Reach-IsValid boot) got_10

abbrev second : Block
second = block 0x1_0018 20 true

-- after one of 20 more
abbrev two_blocks : Heap
two_blocks = (memory_alloc 20 one_block).1

two_blocks-IsValid : IsValid two_blocks
two_blocks-IsValid = Reach-IsValid (next one_block-Reach (alloc 20 one_block))

find-second : find_block 0x1_0018 two_blocks.blocks ≡ some second
unfolding memory_alloc memory_init best_fit grant claim_at claim find_block
find-second = refl

Reach-IsValid_example : IsValid one_block
Reach-IsValid_example = Reach-IsValid one_block-Reach

memory_alloc-disjoint_example :
    let (p, h') = memory_alloc 20 one_block in
    (p + size_at (p - header) h'.blocks ≤ memory_start) ⊎ (memory_start + header + 12 ≤ p - header)
memory_alloc-disjoint_example =
    memory_alloc-disjoint 20 one_block one_block-IsValid got_20 memory_start first find-first refl

memory_alloc-wrap_example : memory_alloc 0xffff_ffff memory_init ≡ (
  memory_start + header,
  record memory_init {
    blocks = block memory_start 0 true ∷ block (memory_start + header) 0xe_ffe8 false ∷ [];
  },
)
memory_alloc-wrap_example = memory_alloc-wrap 0xffff_ffff (omega arith) (omega arith)

memory_free-memory_alloc_example :
    memory_free (memory_alloc 20 one_block).0 (memory_alloc 20 one_block).1 ≡ some one_block
memory_free-memory_alloc_example = memory_free-memory_alloc 20 one_block one_block-IsValid got_20

memory_free-frame_example :
    (h' : Heap) × (memory_free (0x1_0018 + header) two_blocks ≡ some h')
    × (find_block memory_start h'.blocks ≡ some first)
    × (memory_get_free h' ≡ memory_get_free two_blocks + 20)
memory_free-frame_example =
    memory_free-frame two_blocks two_blocks-IsValid 0x1_0018 second find-second memory_start first
      refl (omega arith)
      (memory_alloc-frame 20 one_block memory_start first one_block-IsValid find-first refl) refl
