-- ===== src/Task/Scheduler/Pick.antt =====
-- `pick_next`: which task it takes from the run queue.
use avent.Base.{
  ℕ, suc, ◌+◌, ◌≤◌, ◌<◌, true, false, Option, none, some, ltb, ◌&&◌, List, [], ◌∷◌, take, get_elem?,
  remove_at, All, All-mono, ◌≡◌, ◌⊎◌, inl, inr, refl, ap, ◌∙◌, Bool-cases, arith,
}
use avent.Task.Types.{Task, Priority, is_runnable}
use avent.Task.Scheduler.{Scheduler, scan, pick_next}

-- A task that can run has at most, or less than, the priority `p`.
abbrev pub AtMost : Priority → Task → Type 0
AtMost p t = is_runnable t ≡ true → t.priority ≤ p

abbrev pub Under : Priority → Task → Type 0
Under p t = is_runnable t ≡ true → t.priority < p

-- At index `k` of the queue stands the first of the tasks of highest priority that can run.
pub record IsBest (queue : List Task) (k : ℕ) (t : Task) : Type 0 where
  pub stands : get_elem? queue k ≡ some t
  pub runs : is_runnable t ≡ true
  pub first : All (Under t.priority) (take k queue)
  pub highest : All (AtMost t.priority) queue

abbrev Found : ℕ → Priority → List Task → Option ℕ → Type 0
Found i p ts r = (k : ℕ) × (t : Task) × (r ≡ some (i + k)) × (p < t.priority) × IsBest ts k t

AtMost-mono : (p q : Priority) (ts : List Task) → p ≤ q → All (AtMost p) ts → All (AtMost q) ts
AtMost-mono p q ts h = All-mono (AtMost p) (AtMost q) ts (λ t b r. omega (arith, b r))

-- What the scan found in `ts`, above what it had.
scan_cases :
    (i : ℕ) (best : Option ℕ) (p : Priority) (ts : List Task)
    → ((scan i best p ts ≡ best) × All (AtMost p) ts) ⊎ Found i p ts (scan i best p ts)
unfolding scan
scan_cases i best p [] = inl (refl, tt)
scan_cases i best p (t ∷ ts) = elim (Bool-cases (is_runnable t && ltb p t.priority)) [
  | inl e ↦ rw (e, scan) (taken e (scan_cases (i + 1) (some i) t.priority ts))
  | inr e ↦ rw (e, scan) (passed e (scan_cases (i + 1) best p ts))
]
  where
    taken :
        (is_runnable t && ltb p t.priority) ≡ true
        → ((scan (i + 1) (some i) t.priority ts ≡ some i) × All (AtMost t.priority) ts)
          ⊎ Found (i + 1) t.priority ts (scan (i + 1) (some i) t.priority ts)
        → ((scan (i + 1) (some i) t.priority ts ≡ best) × All (AtMost p) (t ∷ ts))
          ⊎ Found i p (t ∷ ts) (scan (i + 1) (some i) t.priority ts)
    taken e (inl (same, rest)) = inr (
      0,
      t,
      same ∙ ap some (let n : i ≡ i + 0 = omega arith in n),
      ground arith,
      record {
        stands = refl;
        runs = ground arith;
        first = tt;
        highest = ((λ r. omega arith), rest);
      },
    )
    taken e (inr (k, u, at, more, b)) = inr (
      suc k,
      u,
      at ∙ ap some (let n : i + 1 + k ≡ i + suc k = omega arith in n),
      ground arith,
      record {
        stands = b.stands;
        runs = b.runs;
        first = ((λ r. more), b.first);
        highest = ((λ r. omega arith), b.highest);
      },
    )

    passed :
        (is_runnable t && ltb p t.priority) ≡ false
        → ((scan (i + 1) best p ts ≡ best) × All (AtMost p) ts)
          ⊎ Found (i + 1) p ts (scan (i + 1) best p ts)
        → ((scan (i + 1) best p ts ≡ best) × All (AtMost p) (t ∷ ts))
          ⊎ Found i p (t ∷ ts) (scan (i + 1) best p ts)
    passed e (inl (same, rest)) = inl (same, ((λ r. ground arith), rest))
    passed e (inr (k, u, at, more, b)) = inr (
      suc k,
      u,
      at ∙ ap some (let n : i + 1 + k ≡ i + suc k = omega arith in n),
      more,
      record {
        stands = b.stands;
        runs = b.runs;
        first = ((λ r. ground arith), b.first);
        highest = ((λ r. ground arith), b.highest);
      },
    )

-- `pick_next` takes the first of the tasks of highest priority that can run, and nothing else. It
-- takes none exactly where no task with a priority above 0 can run.
pub pick_next_lem :
    (self : Scheduler)
    → ((pick_next self ≡ (none, self)) × All (AtMost 0) self.run_queue)
      ⊎ ((k : ℕ) × (t : Task) × IsBest self.run_queue k t
          × (0 < t.priority)
          × (pick_next self ≡ (some t, record self { run_queue = remove_at k self.run_queue })))
unfolding pick_next
pick_next_lem self = elim (scan_cases 0 none 0 self.run_queue) [
  | inl (e, b) ↦ inl (rw (e, pick_next) refl, b)
  | inr (k, t, e, p, b) ↦ inr (
    k,
    t,
    b,
    p,
    let n : 0 + k ≡ k = omega arith in
        rw (e, pick_next)
          (rw n (
            ap (λ (o : Option Task). (o, record self { run_queue = remove_at k self.run_queue }))
              b.stands)),
  )
]
