-- ===== src/Task/Types.antt =====
-- `Task` and its parts, eira/src/task/task.rs. `TaskId::next` counts in a static, which is an
-- argument and a result here. The stack, the saved context and the address space do not bear on
-- scheduling: the context is named by the task that owns it.
use avent.Base.{ℕ, ◌+◌, Bool, true, false, Outcome, done, assert, ◌>>◌, not, ◌||◌}

abbrev pub TaskId : Type 0
TaskId = ℕ

-- TaskId::IDLE
abbrev pub idle_id : TaskId
idle_id = 0

-- `TaskId::next`: the id, and the counter after it.
abbrev pub next_id : ℕ → TaskId × ℕ
next_id counter = (counter, counter + 1)

pub data BlockReason : Type 0 where
  ipc_reply sleep io page_fault other : BlockReason

pub data TaskState : Type 0 where
  created ready running : TaskState
  blocked : BlockReason → TaskState
  dead : TaskState

-- A `u8`.
abbrev pub Priority : Type 0
Priority = ℕ

abbrev pub idle_priority : Priority
idle_priority = 0

abbrev pub normal_priority : Priority
normal_priority = 128

pub record Task : Type 0 where
  pub id : TaskId
  pub state : TaskState
  pub priority : Priority

-- `Task::new`: a fresh id and the state `Created`.
unfoldable pub new : ℕ → Priority → Task × ℕ
new counter priority =
    let (id, counter) = next_id counter in
    (record { id = id; state = created; priority = priority }, counter)

abbrev pub is_ready : TaskState → Bool
is_ready ready = true
is_ready _ = false

abbrev pub is_runnable : Task → Bool
is_runnable self = is_ready self.state

abbrev pub is_running : TaskState → Bool
is_running running = true
is_running _ = false

abbrev pub is_dead : TaskState → Bool
is_dead dead = true
is_dead _ = false

-- The `debug_assert!`s are panics in the dev profile.
unfoldable pub mark_ready : Task → Outcome Task
mark_ready self = do
  assert (not (is_running self.state || is_dead self.state))
  done (record self { state = ready })

unfoldable pub block : Task → BlockReason → Outcome Task
block self reason = do assert (is_running self.state); done (record self { state = blocked reason })

abbrev pub kill : Task → Task
kill self = record self { state = dead }
