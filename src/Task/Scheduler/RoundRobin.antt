-- ===== src/Task/Scheduler/RoundRobin.antt =====
-- Fairness among tasks of one priority, and how long a task stays blocked.
use avent.Base.{
  ℕ, zero, suc, ◌<◌, true, none, some, Outcome, done, ◌>>=◌, List, [], ◌∷◌, ◌++◌, get_elem?, All,
  All-at, ◌≡◌, inl, inr, refl, ap, sym, ◌∙◌, arith,
}
use avent.Task.Types.{Task, Priority, TaskState, ready, running, is_runnable}
use avent.Task.Scheduler.{Scheduler, task, schedule, pick_next, suspend, resume, set_aside}
use avent.Task.Scheduler.Pick.{pick_next_lem}
use avent.Task.Scheduler.Invariant.{All-snoc}

abbrev pub IsPeer : Priority → Task → Type 0
IsPeer p t = (t.state ≡ ready) × (t.priority ≡ p)

abbrev pub set_state : Task → TaskState → Task
set_state t state = record t { state = state }

-- Among ready tasks of one priority `pick_next` takes the head of the queue.
pick_next_peers :
    (s : Scheduler) (p : Priority) (x : Task) (xs : List Task)
    → 0 < p
    → All (IsPeer p) (x ∷ xs)
    → pick_next (record s { run_queue = x ∷ xs }) ≡ (some x, record s { run_queue = xs })
pick_next_peers s p x xs pos peers = elim (pick_next_lem (record s { run_queue = x ∷ xs })) [
  | inl (n, low) ↦
      let r : is_runnable x ≡ true = ground (arith, peers.0.0) in
      absurd (omega (arith, low.0 r, peers.0.1))
  | inr (zero, t, best, more, n) ↦
      let same : x ≡ t = cc (best.stands) in
      n ∙ ap (λ (u : Task). (some u, record s { run_queue = xs })) (sym same)
  | inr (suc k, t, best, more, n) ↦
      let r : is_runnable x ≡ true = ground (arith, peers.0.0) in
      let peer = All-at (IsPeer p) k xs t peers.1 best.stands in
      absurd (omega (arith, best.first.0 r, peers.0.1, peer.1))
]

-- The scheduler of a task that runs while its peers are queued.
abbrev pub turn : Scheduler → Task → List Task → Scheduler
turn s c queue = record s { run_queue = queue; current = some (set_state c running); dead = [] }

schedule-turn :
    (s : Scheduler) (p : Priority) (c x : Task) (xs : List Task)
    → 0 < p
    → c.priority ≡ p
    → All (IsPeer p) (x ∷ xs)
    → schedule none (turn s c (x ∷ xs))
      ≡ done (turn s x (xs ++ set_state c ready ∷ []), task c.id, task x.id)
unfolding schedule suspend set_aside resume
schedule-turn s p c x xs pos pc peers =
    rw
      (pick_next_peers (record s { current = none; dead = [] }) p x (xs ++ set_state c ready ∷ [])
        pos (peers.0, All-snoc (IsPeer p) xs (set_state c ready) peers.1 (refl, pc)))
      refl

-- `n` calls of `yield_now`, one after the other.
unfoldable pub yields : ℕ → Scheduler → Outcome Scheduler
yields zero s = done s
yields (suc n) s = schedule none s >>= λ (s, from, to). yields n s

get-append :
    (k : ℕ) (xs ys : List Task) (t : Task)
    → get_elem? xs k ≡ some t
    → get_elem? (xs ++ ys) k ≡ some t
get-append k [] ys t e = cc
get-append zero (x ∷ xs) ys t e = e
get-append (suc k) (x ∷ xs) ys t e = get-append k xs ys t e

-- If all queued tasks are ready and have the priority of the running one, which is above 0, the task
-- at index `k` of the queue runs after `k + 1` yields.
pub yields-reach :
    (k : ℕ) (s : Scheduler) (p : Priority) (c t : Task) (queue : List Task)
    → 0 < p
    → c.priority ≡ p
    → All (IsPeer p) queue
    → get_elem? queue k ≡ some t
    → (rest : List Task) × (yields (suc k) (turn s c queue) ≡ done (turn s t rest))
unfolding yields
yields-reach k s p c t [] pos pc peers e = cc
yields-reach zero s p c t (x ∷ xs) pos pc peers e =
    let same : x ≡ t = cc in
    (xs ++ set_state c ready ∷ [], rw (schedule-turn s p c x xs pos pc peers) (rw same refl))
yields-reach (suc k) s p c t (x ∷ xs) pos pc peers e =
    let (rest, r) =
      yields-reach k s p x t (xs ++ set_state c ready ∷ []) pos peers.0.1
        (All-snoc (IsPeer p) xs (set_state c ready) peers.1 (refl, pc)) (get-append k xs _ t e) in
    (rest, rw (schedule-turn s p c x xs pos pc peers) r)
