-- ===== src/Paging/Entry/Convert.antt =====
-- The conversion of flags between the two encodings.
use avent.Base.{
  ℕ, zero, suc, ◌<◌, Bool, true, false, ◌&&◌, not, ltb, ltb→lt, bit_and, ◌^◌, ◌==◌, ==_iff, ◌≡◌,
  refl, arith, inl, inr, Bool-cases,
}
use avent.Paging.Flags
use avent.Paging.Flags.{PageFlags}
use avent.Paging.Entry.{
  phys_mask, contains, present, huge_page, entry_flags_from_page_flags, page_flags_from_entry_flags,
}

-- The test holds of all numbers below `n`.
all_below : (ℕ → Bool) → ℕ → Bool
all_below test zero = true
all_below test (suc n) = test n && all_below test n

and_true : (a b : Bool) → (a && b) ≡ true → (a ≡ true) × (b ≡ true)
and_true true true h = (refl, refl)
and_true true false h = cc
and_true false b h = cc

all_below_at : (test : ℕ → Bool) (n i : ℕ) → all_below test n ≡ true → i < n → test i ≡ true
unfolding all_below
all_below_at test zero i h k = absurd (omega arith)
all_below_at test (suc n) i h k =
    let both = and_true (test n) (all_below test n) h in
    elim (Bool-cases (i == n)) [
      | inl e ↦ let same : i ≡ n = (==_iff i n).0 e in rw same both.0
      | inr e ↦ all_below_at test n i both.1 (ground (arith, e, k))
    ]

-- Page flags, below 64, converted to entry flags and back have `READ` added, which a present entry
-- implies, and are the same otherwise.
pub page_flags-entry_flags :
    (pf : PageFlags)
    → pf < 64
    → page_flags_from_entry_flags (entry_flags_from_page_flags pf) ≡ Flags.or pf Flags.read
unfolding page_flags_from_entry_flags entry_flags_from_page_flags all_below
page_flags-entry_flags pf h = (==_iff _ _).0 (
    all_below_at
      (λ p. page_flags_from_entry_flags (entry_flags_from_page_flags p) == Flags.or p Flags.read) 64
      pf refl h)

-- The entry flags of page flags below 64 stay out of the address field; they say present and no huge page.
pub entry_flags-fields :
    (pf : PageFlags)
    → pf < 64
    → (entry_flags_from_page_flags pf < 2 ^ 64)
      × (bit_and (entry_flags_from_page_flags pf) phys_mask ≡ 0)
      × (contains (entry_flags_from_page_flags pf) present ≡ true)
      × (contains (entry_flags_from_page_flags pf) huge_page ≡ false)
unfolding entry_flags_from_page_flags all_below
entry_flags-fields pf h =
    let ef = entry_flags_from_page_flags pf in
    let all =
      all_below_at
        (λ p.
          let ef = entry_flags_from_page_flags p in
          ltb ef (2 ^ 64)
          && (bit_and ef phys_mask == 0)
          && contains ef present
          && not (contains ef huge_page))
        64 pf refl h in
    let (abc, d) = and_true _ _ all in
    let (ab, c) = and_true _ _ abc in
    let (a, b) = and_true _ _ ab in
    (
      ltb→lt ef (2 ^ 64) a,
      (==_iff (bit_and ef phys_mask) 0).0 b,
      c,
      not_true (contains ef huge_page) d,
    )
  where
    not_true : (b : Bool) → not b ≡ true → b ≡ false
    not_true true e = cc
    not_true false e = refl
