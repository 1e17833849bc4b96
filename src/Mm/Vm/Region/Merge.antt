-- ===== src/Mm/Vm/Region/Merge.antt =====
-- `merge_pair` on the list of slots.
use mathlib.Core.List.{append_assoc}
use avent.Base.Words.{usize_values, low_part, is_power_of_two}
use avent.Base.{
  ==_iff, ℕ, ◌+◌, ◌%◌, ◌≤◌, ◌<◌, true, done, ltb, ◌==◌, lt→ltb, if◌then◌else◌, List, [], ◌∷◌, ◌++◌,
  length, length-append, ◌≡◌, refl, sym, subst, ◌∙◌, arith, inl, inr, Bool-cases,
}
use avent.Mm.Addr.{page_size}
use avent.Mm.Addr.Virt.{is_aligned}
use avent.Mm.Vm.Region.{
  Region, RegionAllocator, region, capacity, store, load, new_region, merge_slots, merge_pair,
  is_left_adjacent_to,
}
use avent.Mm.Vm.Region.View.{
  Lists, Shows, remove_at-Shows, Lists-left, Lists-last, Lists-join, Lists-same,
}
use avent.Mm.Vm.Region.Spec.{IsRegion, glue, merged-IsBlock}

pub is_aligned-eq-page : (a : ℕ) → is_aligned a page_size ≡ done (a % page_size == 0)
unfolding is_aligned is_power_of_two
is_aligned-eq-page a = rw (low_part a page_size refl) refl

pub new_region-done : (r : Region) → IsRegion r → new_region r.base r.size ≡ done r
unfolding new_region
new_region-done r p =
    let f : ltb 0 r.size ≡ true = ground (arith, p.filled) in
    let b : (r.base % page_size == 0) ≡ true = rw p.base_aligned refl in
    let s : (r.size % page_size == 0) ≡ true = rw p.size_aligned refl in
    rw (f, is_aligned-eq-page r.base, b, s) refl

pub is_left_adjacent_to-eq :
    (a b : Region) → IsRegion a → is_left_adjacent_to a b ≡ (a.base + a.size == b.base)
unfolding is_left_adjacent_to
is_left_adjacent_to-eq a b p =
    rw (lt→ltb (a.base + a.size) usize_values p.bounded, is_left_adjacent_to) refl

pub load-Shows :
    (self : RegionAllocator) (pre post : List Region) (x : Region)
    → Shows self (pre ++ x ∷ post)
    → load self.slots (length pre) ≡ done x
unfolding load
load-Shows self pre post x v =
    let parts : Lists self.slots (length pre) (x ∷ post) =
      Lists-last self.slots pre (x ∷ post) v.lists in
    let room : ltb (length pre) capacity ≡ true =
      ground (arith, v.fits, length-append pre (x ∷ post)) in
    rw (room, parts.0) refl

pub store-Shows :
    (self : RegionAllocator) (pre post : List Region) (x y : Region)
    → Shows self (pre ++ x ∷ post)
    → (s : ℕ → Region) × (store self.slots (length pre) y ≡ done s)
      × Shows (record self { slots = s }) (pre ++ y ∷ post)
unfolding store
store-Shows self pre post x y v =
    let n = length pre in
    let s : ℕ → Region = λ i. if i == n then y else self.slots i in
    let parts : Lists self.slots n (x ∷ post) = Lists-last self.slots pre (x ∷ post) v.lists in
    let room : ltb n capacity ≡ true = ground (arith, v.fits, length-append pre (x ∷ post)) in
    let below : (i : ℕ) → 0 ≤ i → i < 0 + n → s i ≡ self.slots i = λ i lo hi. ground arith in
    let above : (i : ℕ) → n + 1 ≤ i → i < n + 1 + length post → s i ≡ self.slots i =
      λ i lo hi. ground arith in
    let at : s n ≡ y = ground arith in
    let same : length (pre ++ y ∷ post) ≡ length (pre ++ x ∷ post) =
      rw (length-append pre (y ∷ post), length-append pre (x ∷ post)) refl in
    (
      s,
      rw room refl,
      record {
        lists =
            Lists-join s pre (y ∷ post)
              (Lists-same self.slots s 0 pre below (Lists-left self.slots 0 pre (x ∷ post) v.lists))
              (at, Lists-same self.slots s (n + 1) post above parts.1);
        counted = v.counted ∙ sym same;
        fits = omega (arith, v.fits, same);
      },
    )

module _ (self : RegionAllocator) (pre post : List Region) (a b : Region) (p : IsRegion a)
    (q : IsRegion b) where
  merge_slots-Shows :
      Shows self (pre ++ a ∷ b ∷ post)
      → a.base + a.size ≡ b.base
      → (t : RegionAllocator) × (merge_slots self (length pre) a b ≡ done t)
        × Shows t (pre ++ region a.base (a.size + b.size) ∷ post)
  unfolding merge_slots
  merge_slots-Shows v e =
      let n = length pre in
      let m = region a.base (a.size + b.size) in
      let (s, stored, w) = store-Shows self pre (b ∷ post) a m v in
      let split : (pre ++ m ∷ []) ++ (b ∷ post) ≡ pre ++ m ∷ b ∷ post =
        append_assoc pre (m ∷ []) (b ∷ post) in
      let w' : Shows (record self { slots = s }) ((pre ++ m ∷ []) ++ b ∷ post) =
        subst (λ l. Shows (record self { slots = s }) l) (sym split) w in
      let (t, out, z) = remove_at-Shows (record self { slots = s }) (pre ++ m ∷ []) post b w' in
      let at : length (pre ++ m ∷ []) ≡ n + 1 = length-append pre (m ∷ []) in
      let z' : Shows t (pre ++ m ∷ post) =
        subst (λ l. Shows t l) (append_assoc pre (m ∷ []) post) z in
      let small : ltb (a.size + b.size) usize_values ≡ true = ground (arith, q.bounded) in
      (
        t,
        rw (small, new_region-done m (merged-IsBlock page_size a b p q e), stored, rw at at out)
            refl,
        z',
      )

  pub merge_pair-Shows :
      Shows self (pre ++ a ∷ b ∷ post)
      → (t : RegionAllocator) × (merge_pair self (length pre) ≡ done t)
        × Shows t (pre ++ glue a (b ∷ post))
  unfolding merge_pair
  merge_pair-Shows v =
      let n = length pre in
      let split : (pre ++ a ∷ []) ++ (b ∷ post) ≡ pre ++ a ∷ b ∷ post =
        append_assoc pre (a ∷ []) (b ∷ post) in
      let first = load-Shows self pre (b ∷ post) a v in
      let at : length (pre ++ a ∷ []) ≡ n + 1 = length-append pre (a ∷ []) in
      let second : load self.slots (n + 1) ≡ done b =
        rw at at
          (load-Shows self (pre ++ a ∷ []) post b (subst (λ l. Shows self l) (sym split) v)) in
      elim (Bool-cases (a.base + a.size == b.base)) [
        | inl e ↦
            let (t, out, z) = merge_slots-Shows v ((==_iff (a.base + a.size) b.base).0 e) in
            rw e (t, rw (first, second, is_left_adjacent_to-eq a b p, e) out, z)
        | inr e ↦ rw e (self, rw (first, second, is_left_adjacent_to-eq a b p, e) refl, v)
      ]
