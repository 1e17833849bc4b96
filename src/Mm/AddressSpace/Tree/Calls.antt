-- ===== src/Mm/AddressSpace/Tree/Calls.antt =====
-- The calls of the page-table mapper keep the promises of the trait on the tables that are there.
use avent.Base.{
  ℕ, ◌%◌, ◌^◌, ◌<◌, ◌==◌, true, false, none, some, Option, done, done_injective, List, ◌∷◌, ◌≡◌,
  refl, sym, ap, ◌∙◌, subst, inl, inr, Bool, arith,
}
use avent.Base.Words
use avent.Mm.Addr.{page_size}
use avent.Mm.Addr.Align.{is_aligned-eq-mod}
use avent.Mm.Addr.Virt.{VirtAddr, is_aligned}
use avent.Mm.Addr.Phys
use avent.Mm.Frame.{PhysFrame}
use avent.Mm.Allocator.{store}
use avent.Mm.Allocator.Chain.{frame_of}
use avent.Paging.Flags.{PageFlags, UnmapError, not_mapped}
use avent.Paging.Flags
use avent.Paging.Entry.{is_present, is_huge, frame, flags, empty}
use avent.Paging.Table.{one, two, three, four}
use avent.Paging.Mapper.{PageTableMapper, Machine, ok, err, entry_at, map, unmap, translate, walk}
use avent.Paging.Mapper.Walk.{Tables, Tables-level4, Tables-level3, Tables-level2}
use avent.Paging.Mapper.Map.{walk_or_create-Tables}
use avent.Paging.Mapper.Unmap.{unmap_level-four, unmap_level-small}
use avent.Paging.Mapper.Leaf.{made, made-on, made-frame, stored-translate}
use avent.Paging.Trait.{page_table_mapper}
use avent.Mm.AddressSpace.Lawful.{Pages, put, Sound, Maps, Unmaps, Refuses, IsLawful}
use avent.Mm.AddressSpace.Tree.{Tree, table_of, IsLeaf, IsTree}
use avent.Mm.AddressSpace.Tree.Stores.{IsTree-elsewhere, IsTree-put, IsSound-put}

aligned-done : (v : VirtAddr) → v % page_size ≡ 0 → is_aligned v page_size ≡ done true
unfolding Words.is_power_of_two is_aligned Phys.is_aligned
aligned-done v e =
    let even : (v % page_size == 0) ≡ true = rw e refl in
    is_aligned-eq-mod v page_size refl ∙ ap done even

module _ (t : Tree) (self : PageTableMapper) (st : Machine) (tables : List ℕ) (pages : Pages)
    (virt : VirtAddr) (r : t.Reaches virt)
    (s : IsTree t self st.memory self.hhdm_offset tables pages) where
  abbrev leaf : ℕ
  leaf = entry_at (table_of self.hhdm_offset (t.l1 virt)) one virt

  abbrev path : Tables self st.memory virt leaf
  path = record {
    l4 = table_of self.hhdm_offset t.root;
    l3 = table_of self.hhdm_offset (t.l3 virt);
    l2 = table_of self.hhdm_offset (t.l2 virt);
    l1 = table_of self.hhdm_offset (t.l1 virt);
    root = s.at_root;
    at4 = (s.at4 virt r).0;
    at3 = (s.at3 virt r).0;
    small3 = (s.at3 virt r).1;
    at2 = (s.at2 virt r).0;
    small2 = (s.at2 virt r).1;
    last = refl;
  }

  walks : walk self st.memory virt ≡ done (some leaf)
  unfolding walk
  walks =
      rw
        (
          s.at_root,
          Tables-level4 self st.memory virt leaf path,
          Tables-level3 self st.memory virt leaf path,
          Tables-level2 self st.memory virt leaf path,
        )
        refl

  vacant : pages virt ≡ none → is_present (st.memory leaf) ≡ false
  vacant e = subst (λ p. IsLeaf p (st.memory leaf)) e (s.leaves virt r)

  aligned : is_aligned virt page_size ≡ done true
  aligned = aligned-done virt (t.aligned virt r)

  map_vacant :
      (f : PhysFrame) (pf : PageFlags) (inside : f.base < 2 ^ 52) (even : f.base % page_size ≡ 0)
      (p : pf < 64)
      → pages virt ≡ none
      → map self st virt f pf
        ≡ done (record st { memory = store st.memory leaf (made f pf inside even p) }, ok virt)
  unfolding map
  map_vacant f pf inside even p e = elim (walk_or_create-Tables self st virt leaf true path) [
    | inl found ↦ rw (aligned, t.canonical virt r, found, vacant e) refl
    | inr (refused, (l4, root, huge)) ↦
        let same : table_of self.hhdm_offset t.root ≡ l4 =
          done_injective _ _ (sym s.at_root ∙ root) in
        let small =
          subst (λ a. is_huge (st.memory (entry_at a four virt)) ≡ false) same (s.at4 virt r).1 in
        absurd (clash (is_huge (st.memory (entry_at l4 four virt))) small huge)
  ]
    where
      clash : (b : Bool) → b ≡ false → b ≡ true → ⊥
      clash b e f = ground (arith, e, f)

  unmap_mapped :
      (f : PhysFrame) (pf : PageFlags)
      → pages virt ≡ some (f, pf)
      → unmap self st virt ≡ done (record st { memory = store st.memory leaf empty }, ok (f, virt))
  unfolding unmap
  unmap_mapped f pf e =
      let (inside, even, p, reads) = subst (λ q. IsLeaf q (st.memory leaf)) e (s.leaves virt r) in
      let e4 = unmap_level-four self.hhdm_offset st.memory path.l4 path.l3 virt path.at4 in
      let e3 =
        unmap_level-small self.hhdm_offset st.memory path.l3 path.l2 three virt path.at3
          path.small3 in
      let e2 =
        unmap_level-small self.hhdm_offset st.memory path.l2 path.l1 two virt path.at2
          path.small2 in
      let on = ap is_present reads ∙ made-on f pf inside even p in
      let has = ap frame reads ∙ made-frame f pf inside even p in
      rw (aligned, s.at_root, e4, e3, e2, on, has) refl

  unmap_vacant : pages virt ≡ none → unmap self st virt ≡ done (st, err not_mapped)
  unfolding unmap
  unmap_vacant e =
      let e4 = unmap_level-four self.hhdm_offset st.memory path.l4 path.l3 virt path.at4 in
      let e3 =
        unmap_level-small self.hhdm_offset st.memory path.l3 path.l2 three virt path.at3
          path.small3 in
      let e2 =
        unmap_level-small self.hhdm_offset st.memory path.l2 path.l1 two virt path.at2
          path.small2 in
      rw (aligned, s.at_root, e4, e3, e2, vacant e) refl

  translate_vacant : pages virt ≡ none → translate self st.memory virt ≡ done none
  unfolding translate
  translate_vacant e = rw (walks, vacant e) refl

  translate_mapped :
      (f : PhysFrame) (pf : PageFlags)
      → pages virt ≡ some (f, pf)
      → translate self st.memory virt ≡ done (some (f.base, Flags.or pf Flags.read))
  translate_mapped f pf e =
      let (inside, even, p, reads) = subst (λ q. IsLeaf q (st.memory leaf)) e (s.leaves virt r) in
      stored-translate self st.memory virt leaf f pf inside even p aligned walks reads

  translate_page :
      (p : Option (PhysFrame × PageFlags))
      → pages virt ≡ p
      → translate self st.memory virt
        ≡ done (elim p [ none ↦ none | some p ↦ some (p.0.base, Flags.or p.1 Flags.read) ])
  translate_page none e = translate_vacant e
  translate_page (some (f, pf)) e = translate_mapped f pf e

module _ (t : Tree) where
  abbrev pub Held : PageTableMapper → Machine → Pages → List ℕ → ℕ → Type 0
  Held = Sound page_table_mapper (IsTree t)

  module _ (self : PageTableMapper) (st : Machine) (pages : Pages) (held : List ℕ) (total : ℕ)
      (virt : VirtAddr) (s : Held self st pages held total) where
    own : IsTree t self st.memory self.hhdm_offset s.tables pages
    own = subst (λ h. IsTree t self st.memory h s.tables pages) (sym s.shows.same_hhdm) s.shows

    -- After a write of the leaf entry.
    written :
        (r : t.Reaches virt) (p : Option (PhysFrame × PageFlags)) (word : ℕ)
        → IsLeaf p word
        → Held self
            (record st { memory = store st.memory (leaf t self st s.tables pages virt r own) word })
            (put pages virt p)
            held
            total
    written r p word fits = record {
      allocator = s.allocator;
      chain = s.chain;
      tables = s.tables;
      ready = s.ready;
      shows =
          subst
            (λ h.
              IsTree t self (store st.memory (leaf t self st s.tables pages virt r own) word) h
                s.tables (put pages virt p))
            s.shows.same_hhdm
            (IsTree-put t self st.memory self.hhdm_offset s.tables pages own virt r p word fits);
      sound =
          IsSound-put t self st.memory self.hhdm_offset s.tables pages own virt r s.allocator
            s.chain held word (sym s.shows.same_hhdm) s.sound;
      counted = s.counted;
    }

  pub tree-Maps :
      (self : PageTableMapper) (st : Machine) (pages : Pages) (held : List ℕ) (total : ℕ)
      (virt : VirtAddr) (i : ℕ) (pf : PageFlags)
      → Held self st pages (i ∷ held) total
      → pf < 64
      → virt % page_size ≡ 0
      → t.Reaches virt
      → pages virt ≡ none
      → Maps page_table_mapper (IsTree t) self st pages (i ∷ held) total virt (frame_of i) pf
  tree-Maps self st pages held total virt i pf s small a r e =
      let inside : (frame_of i).base < 2 ^ 52 = omega (arith, s.sound.tracks.0.1) in
      let even : (frame_of i).base % page_size ≡ 0 = omega arith in
      let s0 = own self st pages (i ∷ held) total virt s in
      inl (
        self,
        _,
        rw (map_vacant t self st s.tables pages virt r s0 (frame_of i) pf inside even small e) refl,
        written self st pages (i ∷ held) total virt s r (some (frame_of i, pf))
            (made (frame_of i) pf inside even small) (inside, even, small, refl),
      )

  -- On such a machine `unmap` of a page that is mapped returns its frame, the page is not mapped then,
  -- no other page has changed, and the frames are as they were.
  pub tree-Unmaps :
      (self : PageTableMapper) (st : Machine) (pages : Pages) (held : List ℕ) (total : ℕ)
      (virt : VirtAddr) (f : PhysFrame) (pf : PageFlags)
      → Held self st pages held total
      → virt % page_size ≡ 0
      → pages virt ≡ some (f, pf)
      → Unmaps page_table_mapper (IsTree t) self st pages held total virt f
  unfolding is_present flags
  tree-Unmaps self st pages held total virt f pf s a e =
      let r = s.shows.within virt (f, pf) e in
      let s0 = own self st pages held total virt s in
      (
        self,
        _,
        rw (unmap_mapped t self st s.tables pages virt r s0 f pf e) refl,
        written self st pages held total virt s r none empty refl,
      )

  pub tree-Refuses :
      (self : PageTableMapper) (st : Machine) (pages : Pages) (held : List ℕ) (total : ℕ)
      (virt : VirtAddr)
      → Held self st pages held total
      → virt % page_size ≡ 0
      → t.Reaches virt
      → pages virt ≡ none
      → Refuses page_table_mapper (IsTree t) self st pages held total virt
  tree-Refuses self st pages held total virt s a r e =
      let s0 = own self st pages held total virt s in
      (self, st, not_mapped, rw (unmap_vacant t self st s.tables pages virt r s0 e) refl, s)

  pub tree-translates :
      (self : PageTableMapper) (st : Machine) (pages : Pages) (held : List ℕ) (total : ℕ)
      (virt : VirtAddr)
      → Held self st pages held total
      → virt % page_size ≡ 0
      → t.Reaches virt
      → translate self st.memory virt
        ≡ done
            (elim (pages virt) [ none ↦ none | some p ↦ some (p.0.base, Flags.or p.1 Flags.read) ])
  tree-translates self st pages held total virt s a r =
      translate_page t self st s.tables pages virt r (own self st pages held total virt s)
        (pages virt) refl

  abbrev pub tree-IsLawful : IsLawful page_table_mapper
  tree-IsLawful = record {
    Shows = IsTree t;
    Reaches = t.Reaches;
    shown = λ pf. Flags.or pf Flags.read;
    keeps = λ self memory hhdm tables pages i word f s.
        IsTree-elsewhere t self memory hhdm tables pages s i word f;
    maps = tree-Maps;
    unmaps = tree-Unmaps;
    refuses = tree-Refuses;
    translates = tree-translates;
  }
