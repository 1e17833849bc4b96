-- ===== src/Task/Scheduler/Exit.antt =====
-- `exit` of eira/src/task/scheduler.rs: which task takes over from one that exits, and whether
-- control comes back to the `unreachable!` at its end.
use avent.Base.{
  Option, none, some, Outcome, done, panic, ◌>>=◌, if◌then◌else◌, [], All, All-at, ◌≡◌, ◌⊎◌, inl,
  inr, refl, arith,
}
use avent.Task.Types.{Task}
use avent.Task.Scheduler.{
  Scheduler, Owner, idle_task, same_owner, schedule, bury_and_schedule, exit, bury, pick_next,
  suspend, resume,
}
use avent.Task.Scheduler.Pick.{pick_next_lem, AtMost}

-- What `schedule` comes to where there is no current task.
abbrev pub unowned : Scheduler → Scheduler × Owner
unowned s = let s = record s { current = none; dead = [] } in resume (pick_next s).1 (pick_next s).0

pub schedule-unowned :
    (s : Scheduler)
    → s.current ≡ none
    → schedule none s ≡ done ((unowned s).0, idle_task, (unowned s).1)
unfolding schedule suspend
schedule-unowned s e = rw e refl

bury-none :
    (s : Scheduler) (current : Option Task) → s.current ≡ current → (bury s current).current ≡ none
unfolding bury
bury-none s none e = e
bury-none s (some t) e = refl

bury_queue : (s : Scheduler) (current : Option Task) → (bury s current).run_queue ≡ s.run_queue
unfolding bury
bury_queue s none = refl
bury_queue s (some t) = refl

-- The end of `exit`, by who takes over.
settle : Scheduler × Owner × Owner → Outcome (Scheduler × Owner × Owner)
settle (s, from, to) = if same_owner from to then panic else done (s, from, to)

-- The idle task takes over, and control comes back; or a task does.
takes_over :
    (q : Scheduler)
    → q.current ≡ none
    → (All (AtMost 0) q.run_queue × ((schedule none q >>= settle) ≡ panic))
      ⊎ ((¬ All (AtMost 0) q.run_queue) × ((schedule none q >>= settle) ≡ schedule none q))
unfolding settle resume
takes_over q e = elim (pick_next_lem (record q { current = none; dead = [] })) [
  | inl (n, low) ↦ inl (low, rw (schedule-unowned q e, n) refl)
  | inr (k, t, best, pos, n) ↦ inr (
    (λ low.
        let p = All-at (AtMost 0) k q.run_queue t low best.stands in
        omega (arith, p best.runs, pos)),
    rw (schedule-unowned q e, n) refl,
  )
]

-- `exit` panics exactly where no task of a priority above 0 can run.
pub exit_cases :
    (s : Scheduler)
    → (All (AtMost 0) s.run_queue × (exit s ≡ panic))
      ⊎ ((¬ All (AtMost 0) s.run_queue) × (exit s ≡ schedule none (bury s s.current)))
unfolding exit bury_and_schedule settle
exit_cases s =
    rw (bury_queue s s.current) at (takes_over (bury s s.current) (bury-none s s.current refl))
