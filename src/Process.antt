-- ===== src/Process.antt =====
-- The processes of kernel/process.c: their list, the scheduler, and their memory.
pub mod Create
pub mod Order
pub mod Turns
pub mod Places
pub mod Fair
mod Tests
use pine_os.Base.{
  ℕ, ◌+◌, Bool, true, false, Option, none, some, List, [], ◌∷◌, ◌++◌, ◌==◌, ◌||◌, not,
  if◌then◌else◌, add32,
}
use pine_os.Memory.{Heap, memory_alloc, memory_free}

abbrev pub ready : ℕ
ready = 0

abbrev pub running : ℕ
running = 1

abbrev pub terminated : ℕ
terminated = 3

-- `process_t`, with its address; the order of a list is that of the `next` pointers.
pub record Process : Type 0 where
  pub addr : ℕ
  pub pid : ℕ
  pub state : ℕ
  pub stack : ℕ
  pub stack_size : ℕ
  pub entry_point : ℕ

-- `process_list`, `current_process` (an address, `none` for null), `next_pid`, and the allocator
pub record Sched : Type 0 where
  pub list : List Process
  pub current : Option ℕ
  pub next_pid : ℕ
  pub heap : Heap

-- `sizeof(process_t)`: six 32-bit words
abbrev pub process_size : ℕ
process_size = 24

unfoldable pub process_init : Sched → Sched
process_init s = record s { list = []; current = none; next_pid = 1 }

abbrev pub new_process : (addr pid stack stack_size entry : ℕ) → Process
new_process a n p size entry = record {
  addr = a;
  pid = n;
  state = ready;
  stack = p;
  stack_size = size;
  entry_point = entry;
}

-- The result is the address of the process, null on failure; `none` is a free of a wild pointer.
unfoldable pub give_up : ℕ → Sched → Option Heap → Option (ℕ × Sched)
give_up p s none = none
give_up p s (some h) = some (0, record s { heap = h })

unfoldable pub process_create : (entry stack_size : ℕ) → Sched → Option (ℕ × Sched)
process_create entry stack_size s =
    let (p, h) = memory_alloc process_size s.heap in
    if p == 0
    then some (0, record s { heap = h })
    else let (stack, h') = memory_alloc stack_size h in
      if stack == 0
      then give_up p s (memory_free p h')
      else some (
        p,
        record s {
          list = s.list ++ (new_process p s.next_pid stack stack_size entry ∷ []);
          next_pid = add32 s.next_pid 1;
          heap = h';
        },
      )

unfoldable pub find_process : ℕ → List Process → Option Process
find_process p [] = none
find_process p (q ∷ l) = if q.addr == p then some q else find_process p l

-- `process->state = v` for the process at `p`
unfoldable pub set_state : ℕ → ℕ → List Process → List Process
set_state p v [] = []
set_state p v (q ∷ l) = if q.addr == p then record q { state = v } ∷ l else q ∷ set_state p v l

-- what the `next` pointer of the process at `p` leads to
unfoldable pub after : ℕ → List Process → List Process
after p [] = []
after p (q ∷ l) = if q.addr == p then l else after p l

-- `while (next && next->state != PROCESS_READY) next = next->next`, and the address
unfoldable pub first_ready : List Process → Option ℕ
first_ready [] = none
first_ready (q ∷ l) = if q.state == ready then some q.addr else first_ready l

abbrev pub or_else : Option ℕ → Option ℕ → Option ℕ
or_else none b = b
or_else (some a) b = some a

-- the process that a yield of the process at `p` would hand over to
unfoldable pub next_ready : ℕ → List Process → Option ℕ
next_ready p l = or_else (first_ready (after p l)) (first_ready l)

unfoldable pub hand_over : ℕ → Option ℕ → Sched → Sched
hand_over c none s = s
hand_over c (some n) s =
    if n == c
    then s
    else record s { list = set_state n running (set_state c ready s.list); current = some n }

unfoldable pub yield_from : Option ℕ → Sched → Sched
yield_from none s = s
yield_from (some c) s = hand_over c (next_ready c s.list) s

unfoldable pub process_yield : Sched → Sched
process_yield s = yield_from s.current s

-- `!current_process || current_process->state != PROCESS_RUNNING`
unfoldable pub idle : Option ℕ → List Process → Bool
idle none l = true
idle (some c) l = elim (find_process c l) [ none ↦ true | some q ↦ not (q.state == running) ]

unfoldable pub dispatch : Option ℕ → Sched → Sched
dispatch none s = s
dispatch (some n) s = record s { list = set_state n running s.list; current = some n }

unfoldable pub process_schedule : Sched → Sched
process_schedule s = if idle s.current s.list then dispatch (first_ready s.list) s else s

-- The process at `p` is taken out of the list.
unfoldable pub remove : ℕ → List Process → List Process
remove p [] = []
remove p (q ∷ l) = if q.addr == p then l else q ∷ remove p l

abbrev pub with_heap : Option Heap → (Heap → Option Sched) → Option Sched
with_heap none k = none
with_heap (some h) k = k h

-- `if (current_process->stack) memory_free(current_process->stack)`
abbrev pub free_stack : Process → Heap → Option Heap
free_stack q h = if q.stack == 0 then some h else memory_free q.stack h

unfoldable pub exit_found : ℕ → Sched → Option Process → Option Sched
exit_found c s none = none
exit_found c s (some q) = with_heap (free_stack q s.heap) (λ h. with_heap (memory_free c h) (λ h'.
    some (process_schedule (record s { list = remove c s.list; current = none; heap = h' }))))

unfoldable pub exit_from : Option ℕ → Sched → Option Sched
exit_from none s = some s
exit_from (some c) s = exit_found c s (find_process c s.list)

-- `none` is an access through a pointer to no process, or a free of a wild pointer.
unfoldable pub process_exit : Sched → Option Sched
process_exit s = exit_from s.current s

-- `run entry` is what the code at an entry point does.
module _ (run : ℕ → Sched → Option Sched) where
  unfoldable pub start_found : ℕ → Sched → Option Process → Option Sched
  start_found p s none = none
  start_found p s (some q) =
      if not (q.state == ready)
      then some s
      else let s' = record s { list = set_state p running s.list; current = some p } in
        if q.entry_point == 0 then some s' else run q.entry_point s'

  unfoldable pub process_start : Option ℕ → Sched → Option Sched
  process_start none s = some s
  process_start (some p) s = start_found p s (find_process p s.list)

unfoldable pub get_process_count : List Process → ℕ
get_process_count [] = 0
get_process_count (q ∷ l) = 1 + get_process_count l

unfoldable pub get_ready_process_count : List Process → ℕ
get_ready_process_count [] = 0
get_ready_process_count (q ∷ l) = (if q.state == ready then 1 else 0) + get_ready_process_count l
