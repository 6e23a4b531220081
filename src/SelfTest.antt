-- ===== src/SelfTest.antt =====
-- `memory_test` of kernel/memory.c: three blocks are filled and read back.
use pine_os.Base.{
  Option, some, none, [], ℕ, zero, suc, ◌+◌, ◌≡◌, refl, Bool, true, false, ◌&&◌, if◌then◌else◌,
  ◌==◌,
}
use pine_os.Memory.{
  memory_init, memory_alloc, memory_free, best_fit, grant, claim_at, claim, find_block, free_block,
  release, merge_prev, merge_next, mark_free, absorb,
}
use pine_os.Ram.{Ram, memory_set, poke}
use pine_os.Filesystem.Paths.{fresh_entry, type_dir}
use pine_os.Machine.{State, Run, ok, Cmd, pure, ◌>>=◌, ◌>>◌, alloc, free}

-- `for (i = 0; i < n; i++) if (p[i] != v)`: whether no byte differs
unfoldable pub all_equal : Ram → (p v n : ℕ) → Bool
all_equal m p v zero = true
all_equal m p v (suc n) = let rest = all_equal m (p + 1) v n in if m p == v then rest else false

abbrev pub fill : ℕ → ℕ → ℕ → Cmd (Unit {0})
fill p v n s = ok tt (record s { ram = memory_set s.ram p v n })

unfoldable pub verify : ℕ → ℕ → ℕ → Cmd ℕ
verify p1 p2 p3 s =
    if all_equal s.ram p1 0xaa 100 && (all_equal s.ram p2 0xbb 200 && all_equal s.ram p3 0xcc 50)
    then (do free p2; free p1; free p3; pure 1) s
    else (do free p1; free p2; free p3; pure 0) s

unfoldable pub memory_test : Cmd ℕ
memory_test = do
  p1 ← alloc 100
  if p1 == 0 then pure 0 else do
    p2 ← alloc 200
    if p2 == 0 then (do free p1; pure 0) else do
      p3 ← alloc 50
      if p3 == 0
          then (do free p1; free p2; pure 0)
          else do fill p1 0xaa 100; fill p2 0xbb 200; fill p3 0xcc 50; verify p1 p2 p3

abbrev result : Run ℕ → Option ℕ
result (ok r s) = some r
result _ = none

abbrev boot : State
boot = record {
  entries = λ i. fresh_entry [] type_dir;
  next_entry = 0;
  root = 0;
  current_dir = 0;
  heap = memory_init;
  ram = λ a. 0;
  console = [];
}

-- on the heap of boot the test passes
passes : result (memory_test boot) ≡ some 1
unfolding memory_test verify all_equal memory_set poke alloc free memory_alloc memory_init best_fit
    grant claim_at claim find_block memory_free free_block release merge_prev merge_next mark_free
    absorb
passes = refl
