-- ===== src/Task/Scheduler.antt =====
-- eira/src/task/scheduler.rs. A pointer to a saved context is the owner of the context: a task, by
-- its id, or the idle task. Boxes do not move, so such a pointer stays good while its task lives.
pub mod Pick
pub mod Exit
pub mod Flow
pub mod Blocking
pub mod RoundRobin
pub mod Calls
pub mod Invariant
use avent.Base.{
  ℕ, zero, suc, ◌+◌, Bool, true, false, Option, none, some, Outcome, done, panic, assert, expect,
  ◌>>=◌, ◌>>◌, ltb, ◌==◌, ◌&&◌, if◌then◌else◌, List, [], ◌∷◌, ◌++◌, length, get_elem?, remove_at,
}
use avent.Task.Types.{
  Task, TaskId, TaskState, BlockReason, Priority, ready, running, is_runnable, mark_ready, block,
  kill, idle_priority,
}
use avent.Task.Types

pub record Scheduler : Type 0 where
  pub run_queue : List Task
  pub current : Option Task
  pub idle : Task
  pub dead : List Task

-- `Scheduler::new`
unfoldable pub new : Task → Scheduler
new idle = record { run_queue = []; current = none; idle = idle; dead = [] }

unfoldable pub enqueue : Scheduler → Task → Outcome Scheduler
enqueue self task = do
  task ← mark_ready task
  done (record self { run_queue = self.run_queue ++ task ∷ [] })

-- The scan of `pick_next` from index `i` on, with the best index and priority so far.
unfoldable pub scan : ℕ → Option ℕ → Priority → List Task → Option ℕ
scan i best_idx best_priority [] = best_idx
scan i best_idx best_priority (t ∷ ts) =
    let better = is_runnable t && ltb best_priority t.priority in
    scan (i + 1) (if better then some i else best_idx)
      (if better then t.priority else best_priority) ts

-- `VecDeque::remove`
unfoldable pub remove : List Task → ℕ → Option Task × List Task
remove queue i = (get_elem? queue i, remove_at i queue)

unfoldable pub pick_next : Scheduler → Option Task × Scheduler
unfolding remove
pick_next self = elim (scan 0 none 0 self.run_queue) [
  | none ↦ (none, self)
  | some i ↦ let (item, rest) = remove self.run_queue i in (item, record self { run_queue = rest })
]

abbrev pub reap : Scheduler → Scheduler
reap self = record self { dead = [] }

abbrev pub count_some : Option Task → ℕ
count_some none = 0
count_some (some t) = 1

unfoldable pub task_count : Scheduler → ℕ
task_count self = length self.run_queue + count_some self.current + length self.dead

-- The owner of a saved context.
pub data Owner : Type 0 where
  idle_task : Owner
  task : TaskId → Owner

abbrev pub same_owner : Owner → Owner → Bool
same_owner idle_task idle_task = true
same_owner (task i) (task j) = i == j
same_owner _ _ = false

-- What happens to the current task: it blocks, or it is ready again.
unfoldable pub set_aside : Option BlockReason → Task → Outcome Task
set_aside (some reason) cur = block cur reason
set_aside none cur = done (record cur { state = ready })

-- The part of `schedule` up to the two context pointers that suspends the current task.
unfoldable pub suspend : Option BlockReason → Scheduler → Option Task → Outcome (Scheduler × Owner)
suspend reason s (some cur) = do
  cur ← set_aside reason cur
  done (record s { run_queue = s.run_queue ++ cur ∷ []; current = none }, task cur.id)
suspend reason s none = done (s, idle_task)

-- The part that picks the next task.
unfoldable pub resume : Scheduler → Option Task → Scheduler × Owner
resume s (some next) = (record s { current = some (record next { state = running }) }, task next.id)
resume s none = (record s { idle = record (s.idle) { state = running } }, idle_task)

-- `schedule` up to the switch: the scheduler, the context to save into and the one to load.
unfoldable pub schedule : Option BlockReason → Scheduler → Outcome (Scheduler × Owner × Owner)
unfolding suspend resume pick_next
schedule reason s = do
  (s, from) ← suspend reason (reap s) s.current
  let (next, s) = pick_next s
  let (s, to) = resume s next
  done (s, from, to)

-- `run_queue.iter_mut().find(id)` and `mark_ready` on what it finds.
unfoldable pub ready_in : TaskId → List Task → Option (Outcome (List Task))
ready_in id [] = none
ready_in id (t ∷ ts) =
    if t.id == id
    then some (mark_ready t >>= λ t. done (t ∷ ts))
    else elim (ready_in id ts) [ none ↦ none | some r ↦ some (r >>= λ ts. done (t ∷ ts)) ]

unfoldable pub any_id : TaskId → List Task → Bool
any_id id [] = false
any_id id (t ∷ ts) = if t.id == id then true else any_id id ts

unfoldable pub unblock : TaskId → Scheduler → Outcome Scheduler
unblock id s = elim (ready_in id s.run_queue) [
  | some found ↦ do queue ← found; done (record s { run_queue = queue })
  | none ↦ if any_id id s.dead then done s else panic
]

-- The first half of `exit`: the current task, if any, dies.
unfoldable pub bury : Scheduler → Option Task → Scheduler
bury s none = s
bury s (some t) = record s { current = none; dead = s.dead ++ kill t ∷ [] }

-- `exit` up to its switch.
unfoldable pub bury_and_schedule : Scheduler → Outcome (Scheduler × Owner × Owner)
unfolding bury
bury_and_schedule s = schedule none (bury s s.current)

-- `exit`. A switch from a context to itself loads what it has just saved: control comes back to
-- `exit`, which runs into its `unreachable!`.
unfoldable pub exit : Scheduler → Outcome (Scheduler × Owner × Owner)
exit s = do
  (s, from, to) ← bury_and_schedule s
  if same_owner from to then panic else done (s, from, to)

-- `spawn`: the scheduler, the id of the new task, and the counter of ids.
unfoldable pub spawn : ℕ → Priority → Scheduler → Outcome (Scheduler × TaskId × ℕ)
spawn counter priority s = do
  let (t, counter) = Types.new counter priority
  s ← enqueue s t
  done (s, t.id, counter)

-- `init`, with the global scheduler before and after: a second call panics.
unfoldable pub init : ℕ → Option Scheduler → Outcome (Option Scheduler × ℕ)
init counter (some s) = panic
init counter none =
    let (idle, counter) = Types.new counter idle_priority in done (some (new idle), counter)
