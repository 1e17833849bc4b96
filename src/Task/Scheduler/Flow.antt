-- ===== src/Task/Scheduler/Flow.antt =====
-- Saved contexts, and which thread of control each holds. `schedule` ends in `switch_to`, which
-- saves the running thread into one context and loads the other. A thread of control is the boot
-- code, the idle loop or the code of a task; a context that `Task::new` made holds its owner's.
use avent.Base.{
  none, some, Outcome, done, ◌>>=◌, if◌then◌else◌, [], ◌∷◌, ◌++◌, All, All-at, ◌≡◌, inl, inr, refl,
  arith,
}
use avent.Task.Types.{Task, kill}
use avent.Task.Scheduler.{
  Scheduler, Owner, idle_task, same_owner, schedule, bury_and_schedule, bury, pick_next, resume,
}
use avent.Task.Scheduler.Exit.{unowned, schedule-unowned}
use avent.Task.Scheduler.Pick.{pick_next_lem, AtMost}

pub data Thread : Type 0 where
  boot : Thread
  of : Owner → Thread

-- The saved contexts and the thread that runs.
pub record Cpu : Type 0 where
  pub saved : Owner → Thread
  pub runs : Thread

-- `KernelContext::switch_to(from, to)`: the save comes first.
unfoldable pub switch_to : Owner → Owner → Cpu → Cpu
switch_to from to cpu =
    let saved : Owner → Thread = λ o. if same_owner o from then cpu.runs else cpu.saved o in
    record { saved = saved; runs = saved to }

-- A call of `schedule(None)`, and `exit` up to and with its switch.
unfoldable pub yield_switch : Scheduler → Cpu → Outcome (Scheduler × Cpu)
yield_switch s cpu = do (s, from, to) ← schedule none s; done (s, switch_to from to cpu)

unfoldable pub exit_switch : Scheduler → Cpu → Outcome (Scheduler × Cpu)
exit_switch s cpu = do (s, from, to) ← bury_and_schedule s; done (s, switch_to from to cpu)

-- With no task to take from the queue, `pick_next` takes none.
pick_next-none : (s : Scheduler) → All (AtMost 0) s.run_queue → pick_next s ≡ (none, s)
pick_next-none s low = elim (pick_next_lem s) [
  | inl (n, _) ↦ n
  | inr (k, t, best, pos, n) ↦
      let p = All-at (AtMost 0) k s.run_queue t low best.stands in
      absurd (omega (arith, p best.runs))
]

bury_and_schedule-unowned :
    (s : Scheduler) (t : Task)
    → s.current ≡ some t
    → bury_and_schedule s ≡ done ((unowned s).0, idle_task, (unowned s).1)
unfolding bury_and_schedule bury
bury_and_schedule-unowned s t e =
    rw e (schedule-unowned (record s { current = none; dead = s.dead ++ kill t ∷ [] }) refl)

-- Where a switch without a current task leaves the two threads.
abbrev pub Clobbers : Scheduler → Cpu → Outcome (Scheduler × Cpu) → Type 0
Clobbers s cpu r =
    (s' : Scheduler) × (cpu' : Cpu) × (r ≡ done (s', cpu'))
    × (cpu'.saved idle_task ≡ cpu.runs)
    × (All (AtMost 0) s.run_queue → cpu'.runs ≡ cpu.runs)

switch_unowned :
    (s : Scheduler) (cpu : Cpu)
    → Clobbers s cpu (done ((unowned s).0, switch_to idle_task (unowned s).1 cpu))
unfolding switch_to resume
switch_unowned s cpu =
    (_, _, refl, refl, λ low. rw (pick_next-none (record s { current = none; dead = [] }) low) refl)

-- When the current task exits, its thread is saved as the idle task's; and if no task of a priority
-- above 0 can run, that thread goes on, past the `schedule` that `exit` takes not to return.
pub exit_switch-Clobbers :
    (s : Scheduler) (cpu : Cpu) (t : Task) → s.current ≡ some t → Clobbers s cpu (exit_switch s cpu)
unfolding exit_switch
exit_switch-Clobbers s cpu t e = rw (bury_and_schedule-unowned s t e) (switch_unowned s cpu)

-- A `yield_now` with no current task, as the first one of the boot code, saves the thread that calls
-- it as the idle task's; and if no task of a priority above 0 can run, that thread goes on.
pub yield_switch-Clobbers :
    (s : Scheduler) (cpu : Cpu) → s.current ≡ none → Clobbers s cpu (yield_switch s cpu)
unfolding yield_switch
yield_switch-Clobbers s cpu e = rw (schedule-unowned s e) (switch_unowned s cpu)
