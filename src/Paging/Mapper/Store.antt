-- ===== src/Paging/Mapper/Store.antt =====
-- What a write to the leaf entry does to a later walk.
use avent.Base.{
  ℕ, Bool, true, false, not, ◌&&◌, ◌||◌, Option, none, some, Outcome, done, ◌==◌, ==_iff,
  if◌then◌else◌, ◌≡◌, refl, sym, ap, ◌∙◌, ◌⊎◌, inl, inr, arith, Bool-cases,
}
use avent.Mm.Addr.Virt.{VirtAddr}
use avent.Mm.Allocator.{Memory, store}
use avent.Paging.Entry.{PageTableEntry, is_present, is_huge, frame, flags, empty}
use avent.Paging.Table.{PageTableLevel, two, three, four}
use avent.Paging.Mapper.{PageTableMapper, entry_at, frame_table, walk_level, walk}
use avent.Paging.Mapper.Walk.{Tables, Tables-level4, Tables-level3, Tables-level2}

-- A write of an entry that is not present ends the walks through it.
level_cleared :
    (hhdm : ℕ) (m : Memory) (at table to : ℕ) (level : PageTableLevel) (virt : VirtAddr)
    → walk_level hhdm m table level virt ≡ done (some to)
    → (walk_level hhdm (store m at empty) table level virt ≡ done none)
      ⊎ (walk_level hhdm (store m at empty) table level virt ≡ done (some to))
unfolding walk_level is_present flags
level_cleared hhdm m at table to level virt e =
    elim (Bool-cases (entry_at table level virt == at)) [
      | inl h ↦ inl (rw h refl)
      | inr h ↦ inr (rw h e)
    ]

-- An entry that leads as the old one did keeps the walks through it.
abbrev pub Alike : PageTableEntry → PageTableEntry → Type 0
Alike v w = (is_present v ≡ is_present w) × (is_huge v ≡ is_huge w) × (frame v ≡ frame w)

-- One level of a walk, by the entry it reads.
read_level : ℕ → PageTableLevel → PageTableEntry → Outcome (Option ℕ)
read_level hhdm level e =
    if not (is_present e) || (is_huge e && not (elim level [ four ↦ true | _ ↦ false ]))
    then done none
    else frame_table e hhdm

read_level-Alike :
    (hhdm : ℕ) (level : PageTableLevel) (v w : PageTableEntry)
    → Alike v w
    → read_level hhdm level v ≡ read_level hhdm level w
unfolding read_level
read_level-Alike hhdm level v w a = rw (a.0, a.1, a.2) refl

level-Alike :
    (hhdm : ℕ) (m : Memory) (at table : ℕ) (v : PageTableEntry) (level : PageTableLevel)
    (virt : VirtAddr)
    → Alike v (m at)
    → walk_level hhdm (store m at v) table level virt ≡ walk_level hhdm m table level virt
unfolding walk_level read_level
level-Alike hhdm m at table v level virt a = elim (Bool-cases (entry_at table level virt == at)) [
  | inl h ↦
      let same : entry_at table level virt ≡ at = (==_iff (entry_at table level virt) at).0 h in
      let reads : store m at v (entry_at table level virt) ≡ v = rw h refl in
      ap (read_level hhdm level) reads
      ∙ read_level-Alike hhdm level v (m at) a
      ∙ ap (λ k. read_level hhdm level (m k)) (sym same)
  | inr h ↦ rw h refl
]

-- A write to an entry that is not present leaves those that are.
pub store-present :
    (m : Memory) (at slot : ℕ) (v : PageTableEntry)
    → is_present (m at) ≡ false
    → is_present (m slot) ≡ true
    → store m at v slot ≡ m slot
store-present m at slot v off on = elim (Bool-cases (slot == at)) [
  | inl h ↦
      let same : slot ≡ at = (==_iff slot at).0 h in
      absurd (clash (is_present (m at)) off (rw same at on))
  | inr h ↦ rw h refl
]
  where
    clash : (b : Bool) → b ≡ false → b ≡ true → ⊥
    clash b e f = ground (arith, e, f)

module _ (self : PageTableMapper) (m : Memory) (virt : VirtAddr) (leaf : ℕ)
    (t : Tables self m virt leaf) where
  by_levels :
      (n : Memory)
      → walk_level self.hhdm_offset n t.l4 four virt ≡ done (some t.l3)
      → walk_level self.hhdm_offset n t.l3 three virt ≡ done (some t.l2)
      → walk_level self.hhdm_offset n t.l2 two virt ≡ done (some t.l1)
      → walk self n virt ≡ done (some leaf)
  unfolding walk
  by_levels n e4 e3 e2 = rw (t.root, e4, e3, e2) (ap (λ l. done (some l)) (sym t.last))

  pub walk-cleared :
      (at : ℕ)
      → (walk self (store m at empty) virt ≡ done none)
        ⊎ (walk self (store m at empty) virt ≡ done (some leaf))
  unfolding walk
  walk-cleared at =
      elim (level_cleared self.hhdm_offset m at t.l4 t.l3 four virt
        (Tables-level4 self m virt leaf t)) [
          | inl e ↦ inl (rw (t.root, e) refl)
          | inr e4 ↦
              elim (level_cleared self.hhdm_offset m at t.l3 t.l2 three virt
                (Tables-level3 self m virt leaf t)) [
                  | inl e ↦ inl (rw (t.root, e4, e) refl)
                  | inr e3 ↦
                      elim (level_cleared self.hhdm_offset m at t.l2 t.l1 two virt
                        (Tables-level2 self m virt leaf t)) [
                          | inl e ↦ inl (rw (t.root, e4, e3, e) refl)
                          | inr e2 ↦ inr (by_levels (store m at empty) e4 e3 e2)
                        ]
                ]
        ]

  pub walk-Alike :
      (at : ℕ) (v : PageTableEntry)
      → Alike v (m at)
      → walk self (store m at v) virt ≡ done (some leaf)
  unfolding walk
  walk-Alike at v a =
      let e4 =
        level-Alike self.hhdm_offset m at t.l4 v four virt a ∙ Tables-level4 self m virt leaf t in
      let e3 =
        level-Alike self.hhdm_offset m at t.l3 v three virt a ∙ Tables-level3 self m virt leaf t in
      let e2 =
        level-Alike self.hhdm_offset m at t.l2 v two virt a ∙ Tables-level2 self m virt leaf t in
      by_levels (store m at v) e4 e3 e2

  pub walk-fresh :
      (at : ℕ) (v : PageTableEntry)
      → is_present (m at) ≡ false
      → walk self (store m at v) virt ≡ done (some leaf)
  unfolding walk_level read_level
  walk-fresh at v off =
      let e4 = store-present m at (entry_at t.l4 four virt) v off t.at4.on in
      let e3 = store-present m at (entry_at t.l3 three virt) v off t.at3.on in
      let e2 = store-present m at (entry_at t.l2 two virt) v off t.at2.on in
      let s4 = ap (read_level self.hhdm_offset four) e4 ∙ Tables-level4 self m virt leaf t in
      let s3 = ap (read_level self.hhdm_offset three) e3 ∙ Tables-level3 self m virt leaf t in
      let s2 = ap (read_level self.hhdm_offset two) e2 ∙ Tables-level2 self m virt leaf t in
      by_levels (store m at v) s4 s3 s2
