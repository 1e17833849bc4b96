-- ===== src/Task/Tests.antt =====
-- The scheduler on examples: a task that runs, two peers that are ready, and one that is blocked.
use avent.Base.{ℕ, ◌<◌, none, some, done, List, [], ◌∷◌, All, remove_at, ◌≡◌, ◌⊎◌, inl, refl, arith}
use avent.Task.Types.{Task, TaskState, ready, running, blocked, sleep}
use avent.Task.Scheduler.{Scheduler, pick_next}
use avent.Task.Scheduler.Pick.{IsBest, AtMost}
use avent.Task.Scheduler.Invariant.{IsWellFormed}
use avent.Task.Scheduler.Calls.{exits, step}
use avent.Task.Scheduler.RoundRobin
use avent.Task.Scheduler.RoundRobin.{turn, yields-reach}
use avent.Task.Scheduler.Blocking.{Has, stays_blocked}
use avent.Task.Scheduler.Flow.{
  Cpu, boot, of, Clobbers, exit_switch, yield_switch, exit_switch-Clobbers, yield_switch-Clobbers,
}
use avent.Task.Scheduler.Pick.{pick_next_lem}
use avent.Task.Switch.{
  KernelStack, top, put, write_down, new_context, Registers, Machine, save, switch_to_asm,
}
use avent.Task.Switch.Frames.{RunsAt, switch_to_asm-resumes, new_context-starts, top-IsAligned}
use avent.Base.{◌+◌, ◌%◌, ◌≤◌}

abbrev task_of : ℕ → TaskState → ℕ → Task
task_of id state priority = record { id = id; state = state; priority = priority }

abbrev runner : Task
runner = task_of 2 running 128

abbrev peer_a : Task
peer_a = task_of 3 ready 128

abbrev peer_b : Task
peer_b = task_of 4 ready 128

abbrev sleeper : Task
sleeper = task_of 5 (blocked sleep) 128

abbrev busy : Scheduler
busy = record {
  run_queue = sleeper ∷ peer_a ∷ [];
  current = some runner;
  idle = task_of 1 ready 0;
  dead = [];
}

abbrev fresh : Scheduler
fresh = record { run_queue = []; current = none; idle = task_of 1 ready 0; dead = [] }

abbrev alone : Scheduler
alone = record { run_queue = []; current = some runner; idle = task_of 1 ready 0; dead = [] }

abbrev cpu : Cpu
cpu = record { saved = λ o. of o; runs = boot }

busy-IsWellFormed : IsWellFormed 6 busy
busy-IsWellFormed = record {
  waiting = (refl, (refl, tt));
  active = refl;
  buried = tt;
  unique = (
    ((λ e. omega (arith, e)), ((λ e. omega (arith, e)), ((λ e. omega (arith, e)), tt))),
    (
      ((λ e. omega (arith, e)), ((λ e. omega (arith, e)), tt)),
      (((λ e. omega (arith, e)), tt), (tt, tt)),
    ),
  );
  numbered = (omega arith, (omega arith, (omega arith, (omega arith, tt))));
}

pick_next_lem_example :
    ((pick_next busy ≡ (none, busy)) × All (AtMost 0) busy.run_queue)
    ⊎ ((k : ℕ) × (t : Task) × IsBest busy.run_queue k t
        × (0 < t.priority)
        × (pick_next busy ≡ (some t, record busy { run_queue = remove_at k busy.run_queue })))
pick_next_lem_example = pick_next_lem busy

yields-reach_example :
    (rest : List Task) × (RoundRobin.yields 2 (turn fresh runner (peer_a ∷ peer_b ∷ []))
      ≡ done (turn fresh peer_b rest))
yields-reach_example =
    yields-reach 1 fresh 128 runner peer_b (peer_a ∷ peer_b ∷ []) (omega arith) refl
      ((refl, refl), ((refl, refl), tt)) refl

stays_blocked_example :
    (r : Scheduler) × (n : ℕ) × (step exits (busy, 6) ≡ done (r, n)) × Has sleeper r.run_queue
stays_blocked_example =
    stays_blocked sleeper sleep refl exits 6 busy busy-IsWellFormed (λ u. omega (arith, u.1.0 refl))
      (λ e. cc) (inl refl)

exit_switch-Clobbers_example : Clobbers alone cpu (exit_switch alone cpu)
exit_switch-Clobbers_example = exit_switch-Clobbers alone cpu runner refl

yield_switch-Clobbers_example : Clobbers fresh cpu (yield_switch fresh cpu)
yield_switch-Clobbers_example = yield_switch-Clobbers fresh cpu refl

abbrev counted_registers : Registers
counted_registers = record { rbx = 1; rbp = 2; r12 = 3; r13 = 4; r14 = 5; r15 = 6 }

-- On its stack below 4096, about to switch away.
abbrev leaving : Machine
leaving = record { registers = counted_registers; rsp = 4096; rip = 7; memory = λ a. a + 1 }

-- On another stack, with what `leaving` has saved in memory.
abbrev returning : Machine
unfolding save write_down
returning = record { registers = counted_registers; rsp = 8192; rip = 8; memory = save 256 leaving }

switch_to_asm-resumes_example : RunsAt (switch_to_asm 264 256 returning) counted_registers 4104 4097
unfolding save write_down
switch_to_asm-resumes_example =
    switch_to_asm-resumes 256 264 leaving returning (omega arith) (inl (omega arith)) (record {
      context = refl;
      word_0 = refl;
      word_1 = refl;
      word_2 = refl;
      word_3 = refl;
      word_4 = refl;
      word_5 = refl;
      word_6 = refl;
    })

-- On another stack, with the first frame of a task in memory.
abbrev starting : Machine
unfolding new_context write_down
starting = record {
  registers = counted_registers;
  rsp = 8192;
  rip = 8;
  memory = put (new_context 5000 4096 (λ a. 9)).0 256 (new_context 5000 4096 (λ a. 9)).1;
}

new_context-starts_example :
    RunsAt
      (switch_to_asm 264 256 starting)
      (record { rbx = 0; rbp = 0; r12 = 0; r13 = 0; r14 = 0; r15 = 0 })
      4088
      5000
unfolding save write_down new_context
new_context-starts_example =
    new_context-starts 256 264 5000 4096 (λ a. 9) starting (omega arith)
      (record {
        context = refl;
        word_0 = refl;
        word_1 = refl;
        word_2 = refl;
        word_3 = refl;
        word_4 = refl;
        word_5 = refl;
        word_6 = refl;
      })
      (inl (omega arith))

abbrev odd_stack : KernelStack
odd_stack = record { base = 4099; size = 65536 }

top-IsAligned_example :
    (t : ℕ) × (top odd_stack ≡ done t)
    × (t % 16 ≡ 0)
    × (t ≤ 69635)
    × (69635 < t + 16)
    × (80 ≤ 65536 → 4163 ≤ t)
top-IsAligned_example = top-IsAligned odd_stack (omega arith)
