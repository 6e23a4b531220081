-- ===== src/Process/Tests.antt =====
-- Two processes that take turns.
use pine_os.Base.{ℕ, ◌<◌, ◌≡◌, refl, some, [], ◌∷◌, arith}
use pine_os.Memory.{memory_init}
use pine_os.Memory.Run.{boot, Reach-IsValid}
use pine_os.Process.{Process, Sched, ready, running, find_process, process_create, process_yield}
use pine_os.Process.Create.{Created, process_create-Created}
use pine_os.Process.Fair.{yields, process_yield-current}
use pine_os.Process.Turns.{IsSingle, Turn, process_yield-Turn}

abbrev shell : Process
shell = record { addr = 16; pid = 1; state = running; stack = 0; stack_size = 0; entry_point = 0 }

abbrev clock : Process
clock = record { addr = 52; pid = 2; state = ready; stack = 0; stack_size = 0; entry_point = 0 }

abbrev two : Sched
two = record { list = shell ∷ clock ∷ []; current = some 16; next_pid = 3; heap = memory_init }

two-IsSingle : IsSingle two
unfolding find_process
two-IsSingle = record {
  apart = (refl, (refl, tt));
  alone = λ p q f r. ground arith;
  present = λ c e. (shell, ground arith, refl);
}

process_create-Created_example :
    (p : ℕ) × (s' : Sched) × (process_create 0 1024 two ≡ some (p, s')) × Created 0 1024 two p s'
process_create-Created_example = process_create-Created 0 1024 two (Reach-IsValid boot)

process_yield-Turn_example : Turn two two-IsSingle 16 (process_yield two)
process_yield-Turn_example = process_yield-Turn two two-IsSingle 16 refl

process_yield-current_example : (j : ℕ) × (j < 2) × ((yields j two).current ≡ some 52)
unfolding find_process
process_yield-current_example =
    process_yield-current two 16 52 two-IsSingle refl (clock, refl, refl)
