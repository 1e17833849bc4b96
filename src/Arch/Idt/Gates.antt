-- ===== src/Arch/Idt/Gates.antt =====
-- The gates of the interrupt descriptor table.
use avent.Base.Bits.{bit_and_mask}
use avent.Base.Words.{usize_values}
use avent.Base.{
  ℕ, zero, suc, ◌+◌, ◌-◌, ◌*◌, ◌^◌, ◌<◌, ◌≤◌, Bool, true, false, ◌&&◌, done, leb, ltb, ◌==◌, ==_iff,
  if◌then◌else◌, Bool-cases, inl, inr, List, [], ◌∷◌, length, get_or, ◌≡◌, refl, ◌∙◌, sym, ap,
  subst, arith,
}
use avent.Arch.Gdt.{kcode_selector}
use avent.Arch.Idt.{
  IdtEntry, Idt, missing, new, new_idt, set, set_stubs, stub_ists, populate, load, interrupt_gate,
}

-- The address that the processor reads out of a gate.
abbrev pub gate_offset : IdtEntry → ℕ
gate_offset e = e.offset_low + e.offset_mid * 2 ^ 16 + e.offset_high * 2 ^ 32

-- The entry for a vector after the calls of `set` for `ists` from vector `k` on.
abbrev pub with_stubs : (ℕ → ℕ) → Idt → ℕ → List ℕ → Idt
with_stubs stubs self k ists v =
    if leb k v && ltb v (k + length ists) then new (stubs v) (get_or ists (v - k) 0) else self v

-- The stack that an exception has for its own: the table of the module's documentation.
abbrev pub own_stack : ℕ → ℕ
own_stack v =
    if v == 8
    then 1
    else if v == 2
    then 2
    else if v == 18
    then 3
    else if v == 12
    then 4
    else if v == 13
    then 5
    else if v == 14
    then 6
    else if v == 3
    then 7
    else 0

and_true : (a b : Bool) → (a && b) ≡ true → (a ≡ true) × (b ≡ true)
and_true true b h = (refl, h)
and_true false b h = cc

agrees : ℕ → Bool
agrees zero = true
agrees (suc n) = (get_or stub_ists n 0 == own_stack n) && agrees n

below_last : (v n : ℕ) → v < suc n → (v == n) ≡ false → v < n
below_last v n l e = ground (arith, l, e)

agrees-below : (n v : ℕ) → agrees n ≡ true → v < n → get_or stub_ists v 0 ≡ own_stack v
unfolding agrees
agrees-below zero v h l = absurd (omega arith)
agrees-below (suc n) v h l =
    let (here, rest) = and_true (get_or stub_ists n 0 == own_stack n) (agrees n) h in
    elim (Bool-cases (v == n)) [
      | inl e ↦ rw ((==_iff v n).0 e) ((==_iff (get_or stub_ists n 0) (own_stack n)).0 here)
      | inr e ↦ agrees-below n v rest (below_last v n l e)
    ]

stub_ists-own_stack : (v : ℕ) → v < 34 → get_or stub_ists v 0 ≡ own_stack v
unfolding agrees
stub_ists-own_stack v l = agrees-below 34 v refl l

no_stubs : (stubs : ℕ → ℕ) (self : Idt) (k v : ℕ) → self v ≡ with_stubs stubs self k [] v
no_stubs stubs self k v =
    let none_left : (leb k v && ltb v (k + 0)) ≡ false = ground arith in rw none_left refl

one_stub :
    (stubs : ℕ → ℕ) (self : Idt) (k ist : ℕ) (ists : List ℕ) (v : ℕ)
    → with_stubs stubs (λ w. if w == k then new (stubs k) ist else self w) (k + 1) ists v
      ≡ with_stubs stubs self k (ist ∷ ists) v
one_stub stubs self k ist ists v = elim (Bool-cases (v == k)) [
  | inl e ↦
      let same : v ≡ k = (==_iff v k).0 e in
      let first : v - k ≡ 0 = omega (arith, same) in
      let past : (leb (k + 1) v && ltb v (k + 1 + length ists)) ≡ false = ground (arith, same) in
      let inside : (leb k v && ltb v (k + suc (length ists))) ≡ true = ground (arith, same) in
      rw (past, inside, e, first) (ap (λ w. new (stubs w) ist) (sym same))
  | inr e ↦ elim (Bool-cases (leb (k + 1) v && ltb v (k + 1 + length ists))) [
    | inl f ↦
        let later : v - k ≡ suc (v - (k + 1)) = ground (arith, f) in
        let inside : (leb k v && ltb v (k + suc (length ists))) ≡ true = ground (arith, f) in
        rw (f, inside, later) refl
    | inr f ↦
        let outside : (leb k v && ltb v (k + suc (length ists))) ≡ false = ground (arith, e, f) in
        rw (f, outside, e) refl
  ]
]

set_stubs-with_stubs :
    (stubs : ℕ → ℕ) (self : Idt) (k : ℕ) (ists : List ℕ)
    → k + length ists ≤ 256
    → set_stubs stubs self k ists ≡ done (with_stubs stubs self k ists)
unfolding set_stubs set
set_stubs-with_stubs stubs self k [] h = ap done (λ i v. no_stubs stubs self k v i)
set_stubs-with_stubs stubs self k (ist ∷ ists) h =
    let below : ltb k 256 ≡ true = ground (arith, h) in
    rw below (
      set_stubs-with_stubs stubs (λ v. if v == k then new (stubs k) ist else self v) (k + 1) ists
        (omega (arith, h))
      ∙ ap done (λ i v. one_stub stubs self k ist ists v i))

own_stack-small : (v : ℕ) → own_stack v < 8
own_stack-small v = ground arith

-- The gate leads to the address, in the code segment of the kernel, with interrupts off, on the stack.
abbrev pub LeadsTo : IdtEntry → ℕ → ℕ → Type 0
LeadsTo e address stack =
    (gate_offset e ≡ address)
    × (e.selector ≡ kcode_selector)
    × (e.flags ≡ interrupt_gate)
    × (e.ist ≡ stack)

new-LeadsTo :
    (address ist : ℕ) → address < usize_values → ist < 8 → LeadsTo (new address ist) address ist
unfolding new
new-LeadsTo address ist h l = (omega (arith, h), refl, refl, bit_and_mask 3 ist ∙ omega (arith, l))

-- After `load` the vectors 0 to 33 lead to their stubs, each on the stack that the documentation gives the
-- exception, if any; no other vector has a gate; and the processor has the address and the size less one.
pub load-LeadsTo :
    (stubs : ℕ → ℕ) (at : ℕ)
    → ((v : ℕ) → stubs v < usize_values)
    → (t : Idt) × (load stubs new_idt at ≡ done (t, record { limit = 4095; base = at }))
      × ((v : ℕ) → v < 34 → LeadsTo (t v) (stubs v) (own_stack v))
      × ((v : ℕ) → 34 ≤ v → t v ≡ missing)
unfolding load populate
load-LeadsTo stubs at h = (
  with_stubs stubs new_idt 0 stub_ists,
  rw (set_stubs-with_stubs stubs new_idt 0 stub_ists (omega arith)) refl,
  (λ v l.
      let inside : (leb 0 v && ltb v (0 + length stub_ists)) ≡ true = ground (arith, l) in
      let found : with_stubs stubs new_idt 0 stub_ists v
          ≡ new (stubs v) (get_or stub_ists (v - 0) 0) =
        rw inside refl in
      let place : v - 0 ≡ v = omega arith in
      subst (λ e. LeadsTo e (stubs v) (own_stack v))
        (sym (
          found
          ∙ ap (λ w. new (stubs v) (get_or stub_ists w 0)) place
          ∙ ap (new (stubs v)) (stub_ists-own_stack v l)))
        (new-LeadsTo (stubs v) (own_stack v) (h v) (own_stack-small v))),
  (λ v l.
      let outside : (leb 0 v && ltb v (0 + length stub_ists)) ≡ false = ground (arith, l) in
      rw outside refl),
)
