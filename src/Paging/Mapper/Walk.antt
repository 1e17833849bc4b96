-- ===== src/Paging/Mapper/Walk.antt =====
-- The path of tables that a walk follows.
use avent.Base.{
  ℕ, Bool, true, false, not, ◌&&◌, Option, none, some, Outcome, done, panic, done_injective,
  done_or_panic, some_or_none, bind_done, ◌≡◌, refl, sym, ap, inl, inr, Bool-cases,
}
use avent.Mm.Addr.Virt.{VirtAddr}
use avent.Mm.Allocator.{Memory}
use avent.Paging.Entry.{PageTableEntry, is_present, is_huge}
use avent.Paging.Table.{PageTableLevel, one, two, three, four}
use avent.Paging.Mapper.{
  PageTableMapper, table_at_frame, entry_at, frame_table, and_then, walk_level, walk,
}

-- The entry is present and leads to the table.
pub record Leads (hhdm : ℕ) (e : PageTableEntry) (table : ℕ) : Type 0 where
  pub on : is_present e ≡ true
  pub to : frame_table e hhdm ≡ done (some table)

-- The tables for `virt` are there, down to the entry of level 1.
pub record Tables (self : PageTableMapper) (m : Memory) (virt : VirtAddr) (leaf : ℕ) : Type 0 where
  pub l4 : ℕ
  pub l3 : ℕ
  pub l2 : ℕ
  pub l1 : ℕ
  pub root : table_at_frame self.pml4 self.hhdm_offset ≡ done l4
  pub at4 : Leads self.hhdm_offset (m (entry_at l4 four virt)) l3
  pub at3 : Leads self.hhdm_offset (m (entry_at l3 three virt)) l2
  pub small3 : is_huge (m (entry_at l3 three virt)) ≡ false
  pub at2 : Leads self.hhdm_offset (m (entry_at l2 two virt)) l1
  pub small2 : is_huge (m (entry_at l2 two virt)) ≡ false
  pub last : leaf ≡ entry_at l1 one virt

-- The entry of level 4 is no huge page.
abbrev pub IsSmall4 :
    {self : PageTableMapper} {m : Memory} {virt : VirtAddr} {leaf : ℕ}
    → Tables self m virt leaf
    → Type 0
IsSmall4 {m = m} {virt = virt} t = is_huge (m (entry_at t.l4 four virt)) ≡ false

pub and_then-some :
    {A B : Type 0} (o : Outcome (Option A)) (f : A → Outcome (Option B)) (b : B)
    → and_then o f ≡ done (some b)
    → (a : A) × (o ≡ done (some a)) × (f a ≡ done (some b))
and_then-some panic f b e = absurd (done_or_panic panic (some b) e refl)
and_then-some (done none) f b e = absurd (some_or_none (done none) b e refl)
and_then-some (done (some a)) f b e = (a, refl, e)

walk_level-four :
    (hhdm : ℕ) (m : Memory) (table to : ℕ) (virt : VirtAddr)
    → Leads hhdm (m (entry_at table four virt)) to
    → walk_level hhdm m table four virt ≡ done (some to)
unfolding walk_level
walk_level-four hhdm m table to virt l =
    elim (Bool-cases (is_huge (m (entry_at table four virt)))) [
      | inl h ↦ rw (l.on, h, l.to) refl
      | inr h ↦ rw (l.on, h, l.to) refl
    ]

walk_level-small :
    (hhdm : ℕ) (m : Memory) (table to : ℕ) (level : PageTableLevel) (virt : VirtAddr)
    → Leads hhdm (m (entry_at table level virt)) to
    → is_huge (m (entry_at table level virt)) ≡ false
    → walk_level hhdm m table level virt ≡ done (some to)
unfolding walk_level
walk_level-small hhdm m table to level virt l h = rw (l.on, h, l.to) refl

walk_level-Leads :
    (hhdm : ℕ) (m : Memory) (table to : ℕ) (level : PageTableLevel) (virt : VirtAddr)
    → walk_level hhdm m table level virt ≡ done (some to)
    → Leads hhdm (m (entry_at table level virt)) to
      × ((is_huge (m (entry_at table level virt)) && not (elim level [ four ↦ true | _ ↦ false ]))
          ≡ false)
unfolding walk_level
walk_level-Leads hhdm m table to level virt e =
    elim (Bool-cases (is_present (m (entry_at table level virt)))) [
      | inl p ↦
          elim (Bool-cases (
            is_huge (m (entry_at table level virt))
            && not (elim level [ four ↦ true | _ ↦ false ]))) [
              | inl h ↦ absurd (
                  some_or_none (walk_level hhdm m table level virt) to e
                    (rw (walk_level, p, h) refl))
              | inr h ↦ (record { on = p; to = rw (p, h) at e }, h)
            ]
      | inr p ↦
          absurd (some_or_none (walk_level hhdm m table level virt) to e (rw (walk_level, p) refl))
    ]

not_huge : (b : Bool) → (b && true) ≡ false → b ≡ false
not_huge true h = h
not_huge false h = h

module _ (self : PageTableMapper) (m : Memory) (virt : VirtAddr) (leaf : ℕ)
    (t : Tables self m virt leaf) where
  pub Tables-level4 : walk_level self.hhdm_offset m t.l4 four virt ≡ done (some t.l3)
  Tables-level4 = walk_level-four self.hhdm_offset m t.l4 t.l3 virt t.at4

  pub Tables-level3 : walk_level self.hhdm_offset m t.l3 three virt ≡ done (some t.l2)
  Tables-level3 = walk_level-small self.hhdm_offset m t.l3 t.l2 three virt t.at3 t.small3

  pub Tables-level2 : walk_level self.hhdm_offset m t.l2 two virt ≡ done (some t.l1)
  Tables-level2 = walk_level-small self.hhdm_offset m t.l2 t.l1 two virt t.at2 t.small2

pub some_injective : {A : Type 0} (a b : A) → some a ≡ some b → a ≡ b
some_injective a b e = ap (λ (o : Option _). elim o [ none ↦ a | some c ↦ c ]) e

-- A walk that ends followed the tables.
pub walk-Tables :
    (self : PageTableMapper) (m : Memory) (virt : VirtAddr) (leaf : ℕ)
    → walk self m virt ≡ done (some leaf)
    → Tables self m virt leaf
unfolding walk
walk-Tables self m virt leaf e =
    let h = self.hhdm_offset in
    let (l4, root, e4) = bind_done (table_at_frame self.pml4 h) _ (some leaf) e in
    let (l3, s4, e3) = and_then-some (walk_level h m l4 four virt) _ leaf e4 in
    let (l2, s3, e2) = and_then-some (walk_level h m l3 three virt) _ leaf e3 in
    let (l1, s2, e1) = and_then-some (walk_level h m l2 two virt) _ leaf e2 in
    let (at3, big3) = walk_level-Leads h m l3 l2 three virt s3 in
    let (at2, big2) = walk_level-Leads h m l2 l1 two virt s2 in
    record {
      l4 = l4;
      l3 = l3;
      l2 = l2;
      l1 = l1;
      root = root;
      at4 = (walk_level-Leads h m l4 l3 four virt s4).0;
      at3 = at3;
      small3 = not_huge (is_huge (m (entry_at l3 three virt))) big3;
      at2 = at2;
      small2 = not_huge (is_huge (m (entry_at l2 two virt))) big2;
      last = sym (
          some_injective (entry_at l1 one virt) leaf
            (done_injective (some (entry_at l1 one virt)) (some leaf) e1));
    }
