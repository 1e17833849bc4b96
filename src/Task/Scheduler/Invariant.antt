-- ===== src/Task/Scheduler/Invariant.antt =====
-- The scheduler's invariant, and that no operation of it breaks it or panics but `unblock` of an
-- unknown task.
use avent.Base.{
  ℕ, zero, suc, ◌<◌, Bool, true, false, Option, none, some, done, List, [], ◌∷◌, ◌++◌, get_elem?,
  remove_at, All, All-at, All-remove_at, Fresh, Distinct, Distinct-remove_at, Fresh-removed,
  Fresh-at, Fresh-remove_at, ◌≡◌, ◌≢◌, inl, inr, refl, ap, sym, subst,
}
use avent.Task.Types.{Task, TaskState, BlockReason, ready, running, blocked, dead, block}
use avent.Task.Scheduler.{
  Scheduler, Owner, idle_task, task, pick_next, suspend, resume, set_aside, schedule, reap,
}
use avent.Task.Scheduler.Pick.{pick_next_lem}

abbrev pub is_waiting : TaskState → Bool
is_waiting ready = true
is_waiting (blocked reason) = true
is_waiting _ = false

abbrev pub IsWaiting : Task → Type 0
IsWaiting t = is_waiting t.state ≡ true

abbrev pub IsDead : Task → Type 0
IsDead t = t.state ≡ dead

abbrev pub IsActive : Option Task → Type 0
IsActive none = Unit
IsActive (some t) = t.state ≡ running

abbrev pub ids : List Task → List ℕ
ids [] = []
ids (t ∷ ts) = t.id ∷ ids ts

-- The ids of the tasks that are alive, the current one first.
abbrev pub live_ids : Option Task → List Task → List ℕ
live_ids none queue = ids queue
live_ids (some t) queue = t.id ∷ ids queue

abbrev pub IsBelow : ℕ → ℕ → Type 0
IsBelow n i = i < n

-- Queued tasks wait, the current task runs, dead tasks are dead, no id is given twice, and all ids
-- are below the counter that gives them.
pub record IsWellFormed (counter : ℕ) (s : Scheduler) : Type 0 where
  pub waiting : All IsWaiting s.run_queue
  pub active : IsActive s.current
  pub buried : All IsDead s.dead
  pub unique : Distinct (s.idle.id ∷ live_ids s.current s.run_queue)
  pub numbered : All (IsBelow counter) (s.idle.id ∷ live_ids s.current s.run_queue)

pub ids-append : (xs ys : List Task) → ids (xs ++ ys) ≡ ids xs ++ ids ys
ids-append [] ys = refl
ids-append (x ∷ xs) ys = ap (◌∷◌ x.id) (ids-append xs ys)

ids-remove_at : (k : ℕ) (xs : List Task) → ids (remove_at k xs) ≡ remove_at k (ids xs)
ids-remove_at k [] = refl
ids-remove_at zero (x ∷ xs) = refl
ids-remove_at (suc k) (x ∷ xs) = ap (◌∷◌ x.id) (ids-remove_at k xs)

ids-get :
    (k : ℕ) (xs : List Task) (t : Task) → get_elem? xs k ≡ some t → get_elem? (ids xs) k ≡ some t.id
ids-get k [] t e = cc
ids-get zero (x ∷ xs) t e = let same : x ≡ t = cc in ap (λ (u : Task). some u.id) same
ids-get (suc k) (x ∷ xs) t e = ids-get k xs t e

pub All-snoc {ℓ κ} :
    {A : Type ℓ} (P : A → Type κ) (xs : List A) (x : A) → All P xs → P x → All P (xs ++ x ∷ [])
All-snoc P [] x h p = (p, tt)
All-snoc P (y ∷ xs) x h p = (h.0, All-snoc P xs x h.1 p)

pub Fresh-snoc : (i : ℕ) (xs : List ℕ) (x : ℕ) → Fresh i xs → i ≢ x → Fresh i (xs ++ x ∷ [])
Fresh-snoc i [] x h p = (p, tt)
Fresh-snoc i (y ∷ xs) x h p = (h.0, Fresh-snoc i xs x h.1 p)

pub Distinct-snoc : (xs : List ℕ) (x : ℕ) → Fresh x xs → Distinct xs → Distinct (xs ++ x ∷ [])
Distinct-snoc [] x f d = (tt, tt)
Distinct-snoc (y ∷ xs) x f d =
    (Fresh-snoc y xs x d.0 (λ e. f.0 (sym e)), Distinct-snoc xs x f.1 d.1)

requeue-IsWellFormed :
    (counter : ℕ) (s : Scheduler) (cur cur' : Task)
    → s.current ≡ some cur
    → cur.id ≡ cur'.id
    → IsWaiting cur'
    → IsWellFormed counter s
    → IsWellFormed counter (record s { run_queue = s.run_queue ++ cur' ∷ []; current = none })
requeue-IsWellFormed counter s cur cur' e same w v =
    let u = subst (λ c. Distinct (s.idle.id ∷ live_ids c s.run_queue)) e v.unique in
    let n = subst (λ c. All (IsBelow counter) (s.idle.id ∷ live_ids c s.run_queue)) e v.numbered in
    record {
      waiting = All-snoc IsWaiting s.run_queue cur' v.waiting w;
      active = tt;
      buried = v.buried;
      unique = rw (ids-append s.run_queue (cur' ∷ [])) (
          rw (← same) (
            Fresh-snoc s.idle.id (ids s.run_queue) cur.id u.0.1 u.0.0,
            Distinct-snoc (ids s.run_queue) cur.id u.1.0 u.1.1,
          ));
      numbered =
          rw (ids-append s.run_queue (cur' ∷ []))
            (rw (← same) (n.0, All-snoc (IsBelow counter) (ids s.run_queue) cur.id n.1.1 n.1.0));
    }

-- The task that stops running goes to the end of the queue.
suspend-IsWellFormed :
    (counter : ℕ) (reason : Option BlockReason) (s : Scheduler) (current : Option Task)
    → s.current ≡ current
    → IsWellFormed counter s
    → (t : Scheduler) × (o : Owner) × (suspend reason s current ≡ done (t, o))
      × IsWellFormed counter t
      × (t.current ≡ none)
unfolding suspend set_aside block
suspend-IsWellFormed counter reason s none e v = (s, idle_task, refl, v, e)
suspend-IsWellFormed counter none s (some cur) e v = (
  _,
  task cur.id,
  refl,
  requeue-IsWellFormed counter s cur (record cur { state = ready }) e refl refl v,
  refl,
)
suspend-IsWellFormed counter (some reason) s (some cur) e v =
    let runs : cur.state ≡ running = subst IsActive e v.active in
    (
      _,
      task cur.id,
      rw runs refl,
      requeue-IsWellFormed counter s cur (record cur { state = blocked reason }) e refl refl v,
      refl,
    )

-- The task that is picked leaves the queue and runs.
resume-IsWellFormed :
    (counter : ℕ) (s : Scheduler)
    → s.current ≡ none
    → IsWellFormed counter s
    → IsWellFormed counter (resume (pick_next s).1 (pick_next s).0).0
unfolding resume
resume-IsWellFormed counter s e v = elim (pick_next_lem s) [
  | inl (p, low) ↦ rw p (record {
    waiting = v.waiting;
    active = v.active;
    buried = v.buried;
    unique = v.unique;
    numbered = v.numbered;
  })
  | inr (k, t, best, pos, p) ↦
      let u = subst (λ c. Distinct (s.idle.id ∷ live_ids c s.run_queue)) e v.unique in
      let n =
        subst (λ c. All (IsBelow counter) (s.idle.id ∷ live_ids c s.run_queue)) e v.numbered in
      let at = ids-get k s.run_queue t best.stands in
      rw p (record {
        waiting = All-remove_at IsWaiting k s.run_queue v.waiting;
        active = refl;
        buried = v.buried;
        unique = rw (ids-remove_at k s.run_queue) (
          (
            Fresh-at s.idle.id k (ids s.run_queue) t.id u.0 at,
            Fresh-remove_at s.idle.id k (ids s.run_queue) u.0,
          ),
          (
            Fresh-removed t.id k (ids s.run_queue) u.1 at,
            Distinct-remove_at k (ids s.run_queue) u.1,
          ),
        );
        numbered = rw (ids-remove_at k s.run_queue) (
          n.0,
          (
            All-at (IsBelow counter) k (ids s.run_queue) t.id n.1 at,
            All-remove_at (IsBelow counter) k (ids s.run_queue) n.1,
          ),
        );
      })
]

-- `schedule`, with or without a reason to block, returns on a well-formed scheduler and leaves a
-- well-formed one.
pub schedule-IsWellFormed :
    (counter : ℕ) (reason : Option BlockReason) (s : Scheduler)
    → IsWellFormed counter s
    → (t : Scheduler) × (from to : Owner) × (schedule reason s ≡ done (t, from, to))
      × IsWellFormed counter t
unfolding schedule
schedule-IsWellFormed counter reason s v =
    let (t, o, runs, w, e) = suspend-IsWellFormed counter reason (reap s) s.current refl (record {
      waiting = v.waiting;
      active = v.active;
      buried = tt;
      unique = v.unique;
      numbered = v.numbered;
    }) in
    (
      (resume (pick_next t).1 (pick_next t).0).0,
      o,
      (resume (pick_next t).1 (pick_next t).0).1,
      rw runs refl,
      resume-IsWellFormed counter t e w,
    )
