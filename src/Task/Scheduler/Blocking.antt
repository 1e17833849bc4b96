-- ===== src/Task/Scheduler/Blocking.antt =====
-- A blocked task stays blocked until it is named in a call of `unblock`.
use avent.Base.{
  ℕ, zero, suc, true, false, Option, none, some, Outcome, done, panic, ◌>>=◌, ◌==◌, if◌then◌else◌,
  List, [], ◌∷◌, ◌++◌, get_elem?, remove_at, ◌≡◌, ◌≢◌, ◌⊎◌, inl, inr, ap, subst, Bool-cases, arith,
}
use avent.Task.Types.{
  Task, TaskId, BlockReason, Priority, TaskState, ready, running, blocked, is_runnable, mark_ready,
  block,
}
use avent.Task.Types
use avent.Task.Scheduler.{
  Scheduler, Owner, schedule, pick_next, suspend, resume, set_aside, reap, bury, enqueue, spawn,
  unblock, ready_in, any_id,
}
use avent.Task.Scheduler.Pick.{pick_next_lem}
use avent.Task.Scheduler.Exit.{exit_cases}
use avent.Task.Scheduler.Calls.{
  Call, spawns, yields, exits, blocks, unblocks, step, IsFatal, step-Keeps,
}
use avent.Task.Scheduler.Invariant.{IsWellFormed}

abbrev pub Has : Task → List Task → Type 0
Has t [] = ⊥
Has t (x ∷ xs) = (t ≡ x) ⊎ Has t xs

-- What holds of the result, if the call returns.
abbrev pub After {ℓ} : {A : Type ℓ} → (A → Type 0) → Outcome A → Type 0
After P (done a) = P a
After P panic = Unit

After-bind {ℓ κ} :
    {A : Type ℓ} {B : Type κ} (P : A → Type 0) (Q : B → Type 0) (m : Outcome A) (f : A → Outcome B)
    → After P m
    → ((a : A) → P a → After Q (f a))
    → After Q (m >>= f)
After-bind P Q (done a) f h k = k a h
After-bind P Q panic f h k = tt

-- Nothing need be known of the first part.
After-then {ℓ κ} :
    {A : Type ℓ} {B : Type κ} (Q : B → Type 0) (m : Outcome A) (f : A → Outcome B)
    → ((a : A) → After Q (f a))
    → After Q (m >>= f)
After-then Q (done a) f k = k a
After-then Q panic f k = tt

Has-append : (t : Task) (xs ys : List Task) → Has t xs → Has t (xs ++ ys)
Has-append t (x ∷ xs) ys (inl e) = inl e
Has-append t (x ∷ xs) ys (inr h) = inr (Has-append t xs ys h)
Has-append t [] ys h = absurd h

Has-remove_at :
    (t u : Task) (k : ℕ) (xs : List Task)
    → get_elem? xs k ≡ some u
    → t ≢ u
    → Has t xs
    → Has t (remove_at k xs)
Has-remove_at t u k [] e ne h = absurd h
Has-remove_at t u zero (x ∷ xs) e ne (inl same) = absurd (ne (cc))
Has-remove_at t u zero (x ∷ xs) e ne (inr h) = h
Has-remove_at t u (suc k) (x ∷ xs) e ne (inl same) = inl same
Has-remove_at t u (suc k) (x ∷ xs) e ne (inr h) = inr (Has-remove_at t u k xs e ne h)

module _ (t : Task) (reason : BlockReason) (blocked_t : t.state ≡ blocked reason) where
  abbrev Queued : Scheduler → Type 0
  Queued s = Has t s.run_queue

  not_picked : (u : Task) → is_runnable u ≡ true → t ≢ u
  not_picked u r same = let e : u.state ≡ blocked reason = cc in ground (arith, e, r)

  resume-Queued : (s : Scheduler) → Queued s → Queued (resume (pick_next s).1 (pick_next s).0).0
  unfolding resume
  resume-Queued s h = elim (pick_next_lem s) [
    | inl (n, low) ↦ rw n h
    | inr (k, u, best, more, n) ↦
        rw n (Has-remove_at t u k s.run_queue best.stands (not_picked u best.runs) h)
  ]

  abbrev Switched : Scheduler × Owner → Type 0
  Switched r = Queued r.0

  suspend-Queued :
      (why : Option BlockReason) (s : Scheduler) (current : Option Task)
      → Queued s
      → After Switched (suspend why s current)
  unfolding suspend
  suspend-Queued why s none h = h
  suspend-Queued why s (some cur) h =
      After-then Switched (set_aside why cur) _ (λ cur. Has-append t s.run_queue (cur ∷ []) h)

  abbrev Scheduled : Scheduler × Owner × Owner → Type 0
  Scheduled r = Queued r.0

  schedule-Queued :
      (why : Option BlockReason) (s : Scheduler) → Queued s → After Scheduled (schedule why s)
  unfolding schedule
  schedule-Queued why s h =
      After-bind Switched Scheduled (suspend why (reap s) s.current) _
        (suspend-Queued why (reap s) s.current h) (λ r q. resume-Queued r.0 q)

  bury-Queued : (s : Scheduler) (current : Option Task) → Queued s → Queued (bury s current)
  unfolding bury
  bury-Queued s none h = h
  bury-Queued s (some c) h = h

  abbrev Readied : Option (Outcome (List Task)) → Type 0
  Readied none = Unit
  Readied (some m) = After (Has t) m

  Readied-tail :
      (x : Task) (o : Option (Outcome (List Task)))
      → (t ≡ x) ⊎ Readied o
      → Readied (elim o [ none ↦ none | some r ↦ some (r >>= λ ts. done (x ∷ ts)) ])
  Readied-tail x none h = tt
  Readied-tail x (some m) (inl same) = After-then (Has t) m _ (λ ts. inl same)
  Readied-tail x (some m) (inr h) = After-bind (Has t) (Has t) m _ h (λ ts q. inr q)

  ready_in-Has :
      (id : TaskId) (queue : List Task) → id ≢ t.id → Has t queue → Readied (ready_in id queue)
  unfolding ready_in
  ready_in-Has id [] ne h = absurd h
  ready_in-Has id (x ∷ xs) ne (inl same) =
      let miss : (x.id == id) ≡ false = ground (arith, ne, ap (λ (u : Task). u.id) same) in
      rw (miss, ready_in) (Readied-tail x (ready_in id xs) (inl same))
  ready_in-Has id (x ∷ xs) ne (inr h) = elim (Bool-cases (x.id == id)) [
    | inl e ↦ rw (e, ready_in) (After-then (Has t) (mark_ready x) _ (λ y. inr h))
    | inr e ↦ rw (e, ready_in) (Readied-tail x (ready_in id xs) (inr (ready_in-Has id xs ne h)))
  ]

  unblock-Queued :
      (id : TaskId) (s : Scheduler) → id ≢ t.id → Queued s → After Queued (unblock id s)
  unfolding unblock
  unblock-Queued id s ne h = unblocked (ready_in id s.run_queue) (ready_in-Has id s.run_queue ne h)
    where
      unblocked :
          (o : Option (Outcome (List Task)))
          → Readied o
          → After Queued (elim o [
            | some found ↦ found >>= λ queue. done (record s { run_queue = queue })
            | none ↦ if any_id id s.dead then done s else panic
          ])
      unblocked (some m) r = After-bind (Has t) Queued m _ r (λ queue q. q)
      unblocked none r = elim (Bool-cases (any_id id s.dead)) [ inl e ↦ rw e h | inr e ↦ rw e tt ]

  enqueue-Queued : (s : Scheduler) (u : Task) → Queued s → After Queued (enqueue s u)
  unfolding enqueue
  enqueue-Queued s u h =
      After-then Queued (mark_ready u) _ (λ u. Has-append t s.run_queue (u ∷ []) h)

  abbrev Spawned : Scheduler × TaskId × ℕ → Type 0
  Spawned r = Queued r.0

  spawn-Queued :
      (counter : ℕ) (p : Priority) (s : Scheduler) → Queued s → After Spawned (spawn counter p s)
  unfolding spawn Types.new
  spawn-Queued counter p s h =
      After-bind Queued Spawned (enqueue s (Types.new counter p).0) _ (enqueue-Queued s _ h)
        (λ r q. q)

  abbrev Stepped : Scheduler × ℕ → Type 0
  Stepped r = Queued r.0

  pub step-Queued :
      (c : Call) (counter : ℕ) (s : Scheduler)
      → c ≢ unblocks t.id
      → Queued s
      → After Stepped (step c (s, counter))
  unfolding step spawn enqueue
  step-Queued (spawns p) counter s ne h =
      After-bind Spawned Stepped (spawn counter p s) _ (spawn-Queued counter p s h) (λ r q. q)
  step-Queued yields counter s ne h =
      After-bind Scheduled Stepped (schedule none s) _ (schedule-Queued none s h) (λ r q. q)
  step-Queued exits counter s ne h = elim (exit_cases s) [
    | inl (low, out) ↦ rw out tt
    | inr (high, out) ↦ rw out (
        After-bind Scheduled Stepped (schedule none (bury s s.current)) _
          (schedule-Queued none (bury s s.current) (bury-Queued s s.current h)) (λ r q. q))
  ]
  step-Queued (blocks why) counter s ne h =
      After-bind Scheduled Stepped (schedule (some why) s) _ (schedule-Queued (some why) s h)
        (λ r q. q)
  step-Queued (unblocks id) counter s ne h =
      After-bind Queued Stepped (unblock id s) _ (unblock-Queued id s (λ e. ne (ap unblocks e)) h)
        (λ r q. q)

  -- On a well-formed scheduler a blocked task that is in the run queue is still in it, with the same
  -- reason, after any call that is not the `unblock` of its id and none of those that panic.
  pub stays_blocked :
      (c : Call) (counter : ℕ) (s : Scheduler)
      → IsWellFormed counter s
      → ¬ IsFatal c s
      → c ≢ unblocks t.id
      → Queued s
      → (r : Scheduler) × (n : ℕ) × (step c (s, counter) ≡ done (r, n)) × Has t r.run_queue
  stays_blocked c counter s v known ne h = elim (step-Keeps c counter s v) [
    | inl (u, e) ↦ absurd (known u)
    | inr (k, r, n, e, w) ↦ (r, n, e, subst (After Stepped) e (step-Queued c counter s ne h))
  ]
