-- ===== src/Mm/Vm/Region/View.antt =====
-- The slots as a list: what `insert_at`, `remove_at` and `merge_pair` do to the list that the first
-- `len` slots hold.
use avent.Base.{
  ℕ, suc, ◌+◌, ◌-◌, ◌≤◌, ◌<◌, true, false, ◌&&◌, done, leb, ltb, ◌==◌, if◌then◌else◌, List, [], ◌∷◌,
  ◌++◌, length, length-append, ◌≡◌, refl, subst, ◌∙◌, arith,
}
use avent.Mm.Vm.Region.{
  Region, RegionAllocator, capacity, ok, err, insert_at, remove_at, copy_within, store, load,
  tracker_full,
}

-- From index `k` on the slots are the list.
abbrev pub Lists : (ℕ → Region) → ℕ → List Region → Type 0
Lists slots k [] = Unit
Lists slots k (x ∷ xs) = (slots k ≡ x) × Lists slots (k + 1) xs

pub record Shows (self : RegionAllocator) (xs : List Region) : Type 0 where
  pub lists : Lists self.slots 0 xs
  pub counted : self.len ≡ length xs
  pub fits : length xs ≤ capacity

-- Slots that agree, perhaps moved by `d`, hold the same list.
Lists-move :
    (s t : ℕ → Region) (k d : ℕ) (xs : List Region)
    → ((i : ℕ) → k ≤ i → i < k + length xs → t (i + d) ≡ s i)
    → Lists s k xs
    → Lists t (k + d) xs
Lists-move s t k d [] same l = tt
Lists-move s t k d (x ∷ xs) same l =
    let at : k + d + 1 ≡ k + 1 + d = omega arith in
    (
      same k (omega arith) (omega arith) ∙ l.0,
      rw at (Lists-move s t (k + 1) d xs (λ i lo hi. same i (omega arith) (omega arith)) l.1),
    )

pub Lists-same :
    (s t : ℕ → Region) (k : ℕ) (xs : List Region)
    → ((i : ℕ) → k ≤ i → i < k + length xs → t i ≡ s i)
    → Lists s k xs
    → Lists t k xs
Lists-same s t k [] same l = tt
Lists-same s t k (x ∷ xs) same l = (
  same k (omega arith) (omega arith) ∙ l.0,
  Lists-same s t (k + 1) xs (λ i lo hi. same i (omega arith) (omega arith)) l.1,
)

pub Lists-left :
    (s : ℕ → Region) (k : ℕ) (xs ys : List Region) → Lists s k (xs ++ ys) → Lists s k xs
Lists-left s k [] ys l = tt
Lists-left s k (x ∷ xs) ys l = (l.0, Lists-left s (k + 1) xs ys l.1)

pub Lists-right :
    (s : ℕ → Region) (k : ℕ) (xs ys : List Region)
    → Lists s k (xs ++ ys)
    → Lists s (k + length xs) ys
Lists-right s k [] ys l = let e : k + 0 ≡ k = omega arith in rw e l
Lists-right s k (x ∷ xs) ys l =
    let e : k + suc (length xs) ≡ k + 1 + length xs = omega arith in
    rw e (Lists-right s (k + 1) xs ys l.1)

pub Lists-append :
    (s : ℕ → Region) (k : ℕ) (xs ys : List Region)
    → Lists s k xs
    → Lists s (k + length xs) ys
    → Lists s k (xs ++ ys)
Lists-append s k [] ys l m = let e : k + 0 ≡ k = omega arith in rw e at m
Lists-append s k (x ∷ xs) ys l m =
    let e : k + suc (length xs) ≡ k + 1 + length xs = omega arith in
    (l.0, Lists-append s (k + 1) xs ys l.1 (rw e at m))

pub Lists-last :
    (s : ℕ → Region) (xs ys : List Region) → Lists s 0 (xs ++ ys) → Lists s (length xs) ys
Lists-last s xs ys l =
    let e : 0 + length xs ≡ length xs = omega arith in
    subst (λ k. Lists s k ys) e (Lists-right s 0 xs ys l)

pub Lists-join :
    (s : ℕ → Region) (xs ys : List Region)
    → Lists s 0 xs
    → Lists s (length xs) ys
    → Lists s 0 (xs ++ ys)
Lists-join s xs ys l m =
    let e : length xs ≡ 0 + length xs = omega arith in
    Lists-append s 0 xs ys l (subst (λ k. Lists s k ys) e m)

Lists-down :
    (s t : ℕ → Region) (k : ℕ) (xs : List Region)
    → ((i : ℕ) → k ≤ i → i < k + length xs → t i ≡ s (i + 1))
    → Lists s (k + 1) xs
    → Lists t k xs
Lists-down s t k [] same l = tt
Lists-down s t k (x ∷ xs) same l = (
  same k (omega arith) (omega arith) ∙ l.0,
  Lists-down s t (k + 1) xs (λ i lo hi. same i (omega arith) (omega arith)) l.1,
)

-- The slots after `r` went in at `pos`.
abbrev pub opened : (ℕ → Region) → ℕ → ℕ → Region → ℕ → Region
opened slots pos len r i =
    if i == pos
    then r
    else if leb (pos + 1) i && ltb i (pos + 1 + (len - pos))
    then slots (pos + (i - (pos + 1)))
    else slots i

-- The slots after the one at `pos` went out.
abbrev pub closed : (ℕ → Region) → ℕ → ℕ → ℕ → Region
closed slots pos len i =
    if leb pos i && ltb i (pos + (len - (pos + 1))) then slots (pos + 1 + (i - pos)) else slots i

pub insert_at-opened :
    (self : RegionAllocator) (pos : ℕ) (r : Region)
    → pos ≤ self.len
    → self.len < capacity
    → insert_at self pos r
      ≡ done (record { slots = opened self.slots pos self.len r; len = self.len + 1 }, ok tt)
unfolding insert_at copy_within store
insert_at-opened self pos r inside room =
    let open_ : leb capacity self.len ≡ false = ground arith in
    let from : leb pos self.len ≡ true = ground arith in
    let to : leb self.len capacity ≡ true = ground arith in
    let dest : leb (pos + 1) (capacity - (self.len - pos)) ≡ true = ground arith in
    let at : ltb pos capacity ≡ true = ground arith in rw (open_, from, to, dest, at) refl

pub remove_at-closed :
    (self : RegionAllocator) (pos : ℕ)
    → pos < self.len
    → self.len ≤ capacity
    → remove_at self pos
      ≡ done (record { slots = closed self.slots pos self.len; len = self.len - 1 }, self.slots pos)
unfolding remove_at copy_within load
remove_at-closed self pos inside room =
    let here : ltb pos self.len ≡ true = ground arith in
    let at : ltb pos capacity ≡ true = ground arith in
    let from : leb (pos + 1) self.len ≡ true = ground arith in
    let to : leb self.len capacity ≡ true = ground arith in
    let dest : leb pos (capacity - (self.len - (pos + 1))) ≡ true = ground arith in
    rw (here, at, from, to, dest) refl

module _ (self : RegionAllocator) (pre post : List Region) where
  -- A slot is inserted between `pre` and `post`, unless all slots are taken.
  pub insert_at-Shows :
      (r : Region)
      → Shows self (pre ++ post)
      → length (pre ++ post) < capacity
      → (t : RegionAllocator) × (insert_at self (length pre) r ≡ done (t, ok tt))
        × Shows t (pre ++ r ∷ post)
  insert_at-Shows r v room =
      let n = length pre in
      let sum : self.len ≡ n + length post = omega (arith, v.counted, length-append pre post) in
      let s = opened self.slots n self.len r in
      let below : (i : ℕ) → 0 ≤ i → i < 0 + n → s i ≡ self.slots i = λ i lo hi. ground arith in
      let above : (i : ℕ) → n ≤ i → i < n + length post → s (i + 1) ≡ self.slots i = λ i lo hi.
        let off : n + (i + 1 - (n + 1)) ≡ i = omega arith in
        let ne : (i + 1 == n) ≡ false = ground arith in
        let lo' : leb (n + 1) (i + 1) ≡ true = ground arith in
        let hi' : ltb (i + 1) (n + 1 + (self.len - n)) ≡ true = ground arith in
        rw (ne, lo', hi', off) refl in
      let at : s n ≡ r = ground arith in
      (
        record { slots = s; len = self.len + 1 },
        insert_at-opened self n r (omega (arith, sum)) (omega (arith, v.counted)),
        record {
          lists =
              Lists-join s pre (r ∷ post)
                (Lists-same self.slots s 0 pre below (Lists-left self.slots 0 pre post v.lists))
                (
                  at,
                  Lists-move self.slots s n 1 post above (Lists-last self.slots pre post v.lists),
                );
          counted = omega (arith, sum, length-append pre (r ∷ post));
          fits = omega (arith, v.counted, sum, length-append pre (r ∷ post));
        },
      )

  pub insert_at_full :
      (r : Region)
      → Shows self (pre ++ post)
      → length (pre ++ post) ≡ capacity
      → insert_at self (length pre) r ≡ done (self, err tracker_full)
  unfolding insert_at
  insert_at_full r v full = ground (arith, v.counted)

  pub remove_at-Shows :
      (x : Region)
      → Shows self (pre ++ x ∷ post)
      → (t : RegionAllocator) × (remove_at self (length pre) ≡ done (t, x)) × Shows t (pre ++ post)
  remove_at-Shows x v =
      let n = length pre in
      let sum : self.len ≡ n + suc (length post) =
        omega (arith, v.counted, length-append pre (x ∷ post)) in
      let s = closed self.slots n self.len in
      let below : (i : ℕ) → 0 ≤ i → i < 0 + n → s i ≡ self.slots i = λ i lo hi. ground arith in
      let above : (i : ℕ) → n ≤ i → i < n + length post → s i ≡ self.slots (i + 1) = λ i lo hi.
        let off : n + 1 + (i - n) ≡ i + 1 = omega arith in
        let lo' : leb n i ≡ true = ground arith in
        let hi' : ltb i (n + (self.len - (n + 1))) ≡ true = ground arith in
        rw (lo', hi', off) refl in
      let parts : Lists self.slots n (x ∷ post) = Lists-last self.slots pre (x ∷ post) v.lists in
      let out = remove_at-closed self n (omega (arith, sum)) (omega (arith, v.counted, v.fits)) in
      (
        record { slots = s; len = self.len - 1 },
        subst (λ y. remove_at self n ≡ done (record { slots = s; len = self.len - 1 }, y)) parts.0
            out,
        record {
          lists =
              Lists-join s pre post
                (Lists-same self.slots s 0 pre below
                  (Lists-left self.slots 0 pre (x ∷ post) v.lists))
                (Lists-down self.slots s n post above parts.1);
          counted = omega (arith, sum, length-append pre post);
          fits = omega (arith, v.fits, v.counted, sum, length-append pre post);
        },
      )
