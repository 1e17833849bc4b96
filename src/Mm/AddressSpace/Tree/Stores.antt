-- ===== src/Mm/AddressSpace/Tree/Stores.antt =====
-- Writes into the leaf tables, and into frames that hold no table.
use avent.Base.{
  ℕ, ◌+◌, ◌*◌, ◌<◌, ◌==◌, ==_iff, some, Option, List, ◌++◌, Fresh, Fresh-of_All, Fresh-append, ◌≡◌,
  ◌≢◌, sym, ap, ◌∙◌, subst, inl, inr, Bool-cases, arith,
}
use avent.Mm.Addr.{page_size}
use avent.Mm.Addr.Virt.{VirtAddr}
use avent.Mm.Frame.{PhysFrame}
use avent.Mm.Allocator.{BitmapAllocator, Memory, store}
use avent.Mm.Allocator.Chain.{IsFree, Chain, Chain-store}
use avent.Mm.Allocator.Ownership.{IsSound, IsHeld}
use avent.Paging.Flags.{PageFlags}
use avent.Paging.Table.{
  PageTableLevel, one, two, three, four, index_of, index_of-lt, indices-injective,
}
use avent.Paging.Mapper.{PageTableMapper, entry_at}
use avent.Paging.Mapper.Leaf.{store-at}
use avent.Mm.AddressSpace.Lawful.{Pages, put}
use avent.Mm.AddressSpace.Tree.{Tree, table_of, IsLeaf, LeadsTo, IsTree}

-- Entries of tables in different frames are different words.
store_apart :
    (memory : Memory) (hhdm i j off word : ℕ) (l : PageTableLevel) (v : VirtAddr)
    → i ≢ j
    → off < page_size
    → store memory (table_of hhdm j + off) word (entry_at (table_of hhdm i) l v)
      ≡ memory (entry_at (table_of hhdm i) l v)
store_apart memory hhdm i j off word l v ne lt = ground (arith, index_of-lt l v, ne, lt)

module _ (t : Tree) (self : PageTableMapper) (memory : Memory) (hhdm : ℕ) (tables : List ℕ)
    (pages : Pages) (s : IsTree t self memory hhdm tables pages) where
  module _ (j off word : ℕ) (lt : off < page_size) where
    abbrev after : Memory
    after = store memory (table_of hhdm j + off) word

    kept :
        (l : PageTableLevel) (v : VirtAddr) (i to : ℕ)
        → i ≢ j
        → LeadsTo hhdm (memory (entry_at (table_of hhdm i) l v)) to
        → LeadsTo hhdm (after (entry_at (table_of hhdm i) l v)) to
    kept l v i to ne h =
        subst (λ e. LeadsTo hhdm e to) (sym (store_apart memory hhdm i j off word l v ne lt)) h

    -- A write into no table above the leaves, with the leaf entries and pages after it.
    stored :
        (pages' : Pages)
        → ((v : VirtAddr) → t.Reaches v → (t.root ≢ j) × (t.l3 v ≢ j) × (t.l2 v ≢ j))
        → ((v : VirtAddr)
            → t.Reaches v
            → IsLeaf (pages' v) (after (entry_at (table_of hhdm (t.l1 v)) one v)))
        → ((v : VirtAddr) (p : PhysFrame × PageFlags) → pages' v ≡ some p → t.Reaches v)
        → IsTree t self after hhdm tables pages'
    stored pages' off_path leaves within = record {
      same_hhdm = s.same_hhdm;
      at_root = s.at_root;
      at4 = λ v r. kept four v t.root (t.l3 v) (off_path v r).0 (s.at4 v r);
      at3 = λ v r. kept three v (t.l3 v) (t.l2 v) (off_path v r).1 (s.at3 v r);
      at2 = λ v r. kept two v (t.l2 v) (t.l1 v) (off_path v r).2 (s.at2 v r);
      leaves = leaves;
      within = within;
      owned = s.owned;
    }

  not-Fresh : (i j : ℕ) → ¬ Fresh j tables → Fresh i tables → j ≢ i
  not-Fresh i j n f e = n (subst (λ k. Fresh k tables) (sym e) f)

  -- A write at the start of a frame without a table.
  pub IsTree-elsewhere :
      (i word : ℕ)
      → Fresh i tables
      → IsTree t self (store memory (table_of hhdm i) word) hhdm tables pages
  IsTree-elsewhere i word f =
      let at : table_of hhdm i + 0 ≡ table_of hhdm i = omega arith in
      subst (λ a. IsTree t self (store memory a word) hhdm tables pages) at
        (stored i 0 word (omega arith) pages
          (λ v r.
            let o = s.owned v r in
            (not-Fresh i t.root o.0 f, not-Fresh i (t.l3 v) o.1 f, not-Fresh i (t.l2 v) o.2 f))
          (λ v r.
            subst (IsLeaf (pages v))
              (sym (
                store_apart memory hhdm (t.l1 v) i 0 word one v
                  (not-Fresh i (t.l1 v) (s.owned v r).3 f) (omega arith)))
              (s.leaves v r))
          s.within)

  module _ (virt : VirtAddr) (reached : t.Reaches virt) where
    abbrev leaf_of : ℕ
    leaf_of = entry_at (table_of hhdm (t.l1 virt)) one virt

    -- Another address has another leaf entry.
    other_leaf :
        (word : ℕ) (v : VirtAddr)
        → t.Reaches v
        → v ≢ virt
        → store memory leaf_of word (entry_at (table_of hhdm (t.l1 v)) one v)
          ≡ memory (entry_at (table_of hhdm (t.l1 v)) one v)
    other_leaf word v r ne = elim (Bool-cases (t.l1 v == t.l1 virt)) [
      | inl e ↦
          let same = (==_iff (t.l1 v) (t.l1 virt)).0 e in
          let above = t.shared v virt r reached same in
          let differ : index_of one v ≢ index_of one virt = λ i. ne (
            indices-injective v virt (t.canonical v r) (t.canonical virt reached)
              (λ l. elim l as (λ k. index_of k v ≡ index_of k virt) [
                | one ↦ i
                | two ↦ above.2
                | three ↦ above.1
                | four ↦ above.0
              ])
              (omega (arith, t.aligned v r, t.aligned virt reached))) in
          ground (arith, same, differ)
      | inr e ↦
          store_apart memory hhdm (t.l1 v) (t.l1 virt) (8 * index_of one virt) word one v
            (λ same. ground (arith, e, same)) (omega (arith, index_of-lt one virt))
    ]

    -- The leaf entry of an address is written.
    pub IsTree-put :
        (p : Option (PhysFrame × PageFlags)) (word : ℕ)
        → IsLeaf p word
        → IsTree t self (store memory leaf_of word) hhdm tables (put pages virt p)
    IsTree-put p word fits =
        stored (t.l1 virt) (8 * index_of one virt) word (omega (arith, index_of-lt one virt))
          (put pages virt p) (λ v r. t.apart v virt r reached)
          (λ v r. elim (Bool-cases (v == virt)) [
            | inl e ↦
                let same = (==_iff v virt).0 e in
                rw e (
                  subst (IsLeaf p)
                    (sym (store-at memory leaf_of word)
                      ∙ ap
                          (λ w. store memory leaf_of word (entry_at (table_of hhdm (t.l1 w)) one w))
                          (sym same))
                    fits)
            | inr e ↦ rw e (
                subst (IsLeaf (pages v))
                  (sym (other_leaf word v r (λ same. ground (arith, e, same)))) (s.leaves v r))
          ])
          (λ v q. elim (Bool-cases (v == virt)) [
            | inl e ↦ λ h. subst t.Reaches (sym ((==_iff v virt).0 e)) reached
            | inr e ↦ λ h. s.within v q (rw e at h)
          ])

    -- The leaf table is in a frame that is held, so the free list stays whole.
    pub IsSound-put :
        (a : BitmapAllocator) (chain held : List ℕ) (word : ℕ)
        → a.hhdm_offset ≡ hhdm
        → IsSound chain (record { allocator = a; memory = memory; held = held ++ tables })
        → IsSound chain
            (record { allocator = a; memory = store memory leaf_of word; held = held ++ tables })
    IsSound-put a chain held word same v = record {
      holds = record {
        tracked = v.holds.tracked;
        bits = v.holds.bits;
        linked =
            subst
              (λ h.
                Chain (store memory (t.l1 virt * page_size + h + 8 * index_of one virt) word)
                  a.hhdm_offset a.free_list_head chain)
              same
              (Chain-store memory a.hhdm_offset (t.l1 virt) (8 * index_of one virt) word
                a.free_list_head chain
                (Fresh-of_All (IsFree a.bitmap) (t.l1 virt) chain
                  (λ free.
                    (s.owned virt reached).3
                      (Fresh-append (t.l1 virt) held tables (
                        Fresh-of_All (IsHeld a.bitmap) (t.l1 virt) (held ++ tables)
                          (λ taken. omega (arith, free, taken)) v.marks)).1)
                  v.holds.bits)
                (omega (arith, index_of-lt one virt)) v.holds.linked);
        distinct = v.holds.distinct;
        counted = v.holds.counted;
      };
      marks = v.marks;
      tracks = v.tracks;
      owners = v.owners;
      small = v.small;
    }
