-- ===== src/Task/Scheduler/Calls.antt =====
-- The entry points that tasks call, in any order, each up to its switch to another context, and the
-- calls that panic.
use avent.Base.{
  ℕ, ◌+◌, true, false, Option, none, some, Outcome, done, panic, ◌>>=◌, ◌==◌, List, [], ◌∷◌, ◌++◌,
  All, All-mono, Fresh, Fresh-of_All, Distinct, ◌≡◌, ◌⊎◌, inl, inr, refl, ap, sym, subst,
  Bool-cases, arith,
}
use avent.Task.Types.{
  Task, TaskId, BlockReason, Priority, created, ready, running, dead, mark_ready, kill,
}
use avent.Task.Types
use avent.Task.Scheduler.{
  Scheduler, enqueue, schedule, bury, exit, unblock, ready_in, any_id, spawn,
}
use avent.Task.Scheduler.Pick.{AtMost}
use avent.Task.Scheduler.Exit.{exit_cases}
use avent.Task.Scheduler.Invariant.{
  IsWellFormed, IsWaiting, IsDead, IsBelow, ids, live_ids, ids-append, All-snoc, Distinct-snoc,
  schedule-IsWellFormed,
}

-- A call and its arguments.
pub data Call : Type 0 where
  spawns : Priority → Call
  yields exits : Call
  blocks : BlockReason → Call
  unblocks : TaskId → Call

-- The scheduler and the counter of ids after a call.
unfoldable pub step : Call → Scheduler × ℕ → Outcome (Scheduler × ℕ)
step (spawns p) (s, counter) = do (s, id, counter) ← spawn counter p s; done (s, counter)
step yields (s, counter) = do (s, from, to) ← schedule none s; done (s, counter)
step exits (s, counter) = do (s, from, to) ← exit s; done (s, counter)
step (blocks reason) (s, counter) = do (s, from, to) ← schedule (some reason) s; done (s, counter)
step (unblocks id) (s, counter) = do s ← unblock id s; done (s, counter)

live_ids-snoc :
    (current : Option Task) (queue : List Task) (t : Task)
    → live_ids current (queue ++ t ∷ []) ≡ live_ids current queue ++ t.id ∷ []
live_ids-snoc none queue t = ids-append queue (t ∷ [])
live_ids-snoc (some c) queue t = ap (◌∷◌ c.id) (ids-append queue (t ∷ []))

live_ids-same :
    (current : Option Task) (queue found : List Task)
    → ids found ≡ ids queue
    → live_ids current queue ≡ live_ids current found
live_ids-same none queue found e = sym e
live_ids-same (some c) queue found e = ap (◌∷◌ c.id) (sym e)

-- A new task at the end of the queue.
spawn-IsWellFormed :
    (counter : ℕ) (p : Priority) (s : Scheduler)
    → IsWellFormed counter s
    → (t : Scheduler) × (spawn counter p s ≡ done (t, counter, counter + 1))
      × IsWellFormed (counter + 1) t
unfolding spawn enqueue mark_ready Types.new
spawn-IsWellFormed counter p s v = (
  _,
  refl,
  record {
    waiting = All-snoc IsWaiting s.run_queue _ v.waiting refl;
    active = v.active;
    buried = v.buried;
    unique = rw (live_ids-snoc s.current s.run_queue _) (
        Distinct-snoc (s.idle.id ∷ live_ids s.current s.run_queue) counter
          (Fresh-of_All (IsBelow counter) counter (s.idle.id ∷ live_ids s.current s.run_queue)
            (λ h. omega arith) v.numbered)
          v.unique);
    numbered = rw (live_ids-snoc s.current s.run_queue _) (
        All-snoc (IsBelow (counter + 1)) (s.idle.id ∷ live_ids s.current s.run_queue) counter
          (All-mono (IsBelow counter) (IsBelow (counter + 1))
            (s.idle.id ∷ live_ids s.current s.run_queue) (λ i h. omega arith) v.numbered)
          (omega arith));
  },
)

bury-IsWellFormed :
    (counter : ℕ) (s : Scheduler) (current : Option Task)
    → s.current ≡ current
    → IsWellFormed counter s
    → IsWellFormed counter (bury s current)
unfolding bury
bury-IsWellFormed counter s none e v = v
bury-IsWellFormed counter s (some t) e v =
    let u = subst (λ c. Distinct (s.idle.id ∷ live_ids c s.run_queue)) e v.unique in
    let n = subst (λ c. All (IsBelow counter) (s.idle.id ∷ live_ids c s.run_queue)) e v.numbered in
    record {
      waiting = v.waiting;
      active = tt;
      buried = All-snoc IsDead s.dead (kill t) v.buried refl;
      unique = (u.0.1, u.1.1);
      numbered = (n.0, n.1.1);
    }

-- Readying a queued task changes no id.
ready_in_cases :
    (id : TaskId) (queue : List Task)
    → All IsWaiting queue
    → ((ready_in id queue ≡ none) × Fresh id (ids queue))
      ⊎ ((¬ Fresh id (ids queue))
          × (found : List Task) × (ready_in id queue ≡ some (done found))
          × All IsWaiting found
          × (ids found ≡ ids queue))
unfolding ready_in mark_ready
ready_in_cases id [] w = inl (refl, tt)
ready_in_cases id (t ∷ ts) w = elim (Bool-cases (t.id == id)) [
  | inl e ↦
      rw (e, ready_in)
        (inr (
          (λ f. f.0 (ground arith)),
          record t { state = ready } ∷ ts,
          readied t w.0,
          (refl, w.1),
          refl,
        ))
  | inr e ↦
      rw (e, ready_in)
        (elim (ready_in_cases id ts w.1) [
          | inl (n, fresh) ↦ inl (rw n refl, ((λ same. ground arith), fresh))
          | inr (old, found, f, g, h) ↦
              inr ((λ fresh. old fresh.1), t ∷ found, rw f refl, (w.0, g), ap (◌∷◌ t.id) h)
        ])
]
  where
    readied :
        (t : Task)
        → IsWaiting t
        → ◌≡◌ {A = Option (Outcome (List Task))}
            (some (mark_ready t >>= λ t. done (t ∷ ts)))
            (some (done (record t { state = ready } ∷ ts)))
    readied t w = ground arith

any_id_cases :
    (id : TaskId) (ts : List Task)
    → ((any_id id ts ≡ true) × (¬ Fresh id (ids ts))) ⊎ ((any_id id ts ≡ false) × Fresh id (ids ts))
unfolding any_id
any_id_cases id [] = inr (refl, tt)
any_id_cases id (t ∷ ts) = elim (Bool-cases (t.id == id)) [
  | inl e ↦ rw (e, any_id) (inl (refl, (λ f. f.0 (ground arith))))
  | inr e ↦
      rw (e, any_id)
        (elim (any_id_cases id ts) [
          | inl (a, old) ↦ inl (a, (λ f. old f.1))
          | inr (a, fresh) ↦ inr (a, ((λ same. ground arith), fresh))
        ])
]

-- The calls that panic: unblocking a task that is neither queued nor dead, and an exit with no task to
-- take over.
abbrev pub IsFatal : Call → Scheduler → Type 0
IsFatal (unblocks id) s = Fresh id (ids s.run_queue) × Fresh id (ids s.dead)
IsFatal exits s = All (AtMost 0) s.run_queue
IsFatal _ s = ⊥

-- A call panics exactly if it is one of these; any other keeps the invariant.
abbrev pub Keeps : Call → Scheduler → Outcome (Scheduler × ℕ) → Type 0
Keeps c s r =
    (IsFatal c s × (r ≡ panic))
    ⊎ ((¬ IsFatal c s) × (t : Scheduler) × (n : ℕ) × (r ≡ done (t, n)) × IsWellFormed n t)

unblock-Keeps :
    (id : TaskId) (counter : ℕ) (s : Scheduler)
    → IsWellFormed counter s
    → Keeps (unblocks id) s (step (unblocks id) (s, counter))
unfolding step unblock
unblock-Keeps id counter s v = elim (ready_in_cases id s.run_queue v.waiting) [
  | inl (n, fresh) ↦
      rw (n, step, unblock)
        (elim (any_id_cases id s.dead) [
          | inl (d, old) ↦ inr ((λ u. old u.1), s, counter, rw d refl, v)
          | inr (d, gone) ↦ inl ((fresh, gone), rw d refl)
        ])
  | inr (old, found, f, w, same) ↦ inr (
    (λ u. old u.0),
    record s { run_queue = found },
    counter,
    rw (f, step, unblock) refl,
    record {
      waiting = w;
      active = v.active;
      buried = v.buried;
      unique =
          subst (λ l. Distinct (s.idle.id ∷ l)) (live_ids-same s.current s.run_queue found same)
            v.unique;
      numbered =
          subst (λ l. All (IsBelow counter) (s.idle.id ∷ l))
            (live_ids-same s.current s.run_queue found same) v.numbered;
    },
  )
]

pub step-Keeps :
    (c : Call) (counter : ℕ) (s : Scheduler)
    → IsWellFormed counter s
    → Keeps c s (step c (s, counter))
unfolding step
step-Keeps (spawns p) counter s v =
    let (t, e, w) = spawn-IsWellFormed counter p s v in inr ((λ u. u), t, counter + 1, rw e refl, w)
step-Keeps yields counter s v =
    let (t, from, to, e, w) = schedule-IsWellFormed counter none s v in
    inr ((λ u. u), t, counter, rw e refl, w)
step-Keeps exits counter s v = elim (exit_cases s) [
  | inl (low, out) ↦ inl (low, rw out refl)
  | inr (high, out) ↦
      let (t, from, to, e, w) =
        schedule-IsWellFormed counter none (bury s s.current)
          (bury-IsWellFormed counter s s.current refl v) in
      inr (high, t, counter, rw (out, e) refl, w)
]
step-Keeps (blocks reason) counter s v =
    let (t, from, to, e, w) = schedule-IsWellFormed counter (some reason) s v in
    inr ((λ u. u), t, counter, rw e refl, w)
step-Keeps (unblocks id) counter s v = unblock-Keeps id counter s v
