-- ===== src/Mm/AddressSpace/Pools.antt =====
-- The pools of an address space, and the pages that a flush covers.
use mathlib.Core.List.{append_assoc, append-nil}
use avent.Base.Words.{usize_values}
use avent.Base.{
  ℕ, zero, suc, ◌+◌, ◌*◌, ◌<◌, done, List, [], ◌∷◌, ◌++◌, ◌≡◌, refl, sym, ◌∙◌, ap, arith,
}
use avent.Mm.Addr.{page_size}
use avent.Mm.Addr.Virt.{VirtAddr}
use avent.Mm.Vm.Region.{RegionAllocator}
use avent.Paging.Trait.{Mapper}
use avent.Mm.AddressSpace.{
  AddressSpace, AllocKind, heap, kernel_vm, Platform, region_allocator_for, with_region_allocator,
}
use avent.Mm.AddressSpace.Ranges.{flush_pages, flush_range}
use avent.Mm.AddressSpace.Rollback.{page_at-done}
use avent.Mm.AddressSpace.GiveUp.{gave_back}

-- The addresses of `n` pages after `base`, from page `i` on.
abbrev pub addresses : VirtAddr → ℕ → ℕ → List VirtAddr
addresses base i zero = []
addresses base i (suc n) = (base + i * page_size) ∷ addresses base (i + 1) n

flush_pages-addresses :
    (n i : ℕ) (base : VirtAddr) (st : Platform)
    → base + (i + n) * page_size < usize_values
    → flush_pages st base i n ≡ done (record st { flushed = st.flushed ++ addresses base i n })
unfolding flush_pages
flush_pages-addresses zero i base st h =
    ap (λ l. done (record st { flushed = l })) (sym (append-nil st.flushed))
flush_pages-addresses (suc n) i base st h =
    let v = base + i * page_size in
    rw (page_at-done base i (omega (arith, h))) (
      flush_pages-addresses n (i + 1) base (record st { flushed = st.flushed ++ (v ∷ []) })
        (omega (arith, h))
      ∙ ap (λ l. done (record st { flushed = l }))
          (append_assoc st.flushed (v ∷ []) (addresses base (i + 1) n)))

pub flush_range-addresses :
    (n : ℕ) (base : VirtAddr) (st : Platform)
    → base + n * page_size < usize_values
    → flush_range st base n ≡ done (record st { flushed = st.flushed ++ addresses base 0 n })
unfolding flush_range
flush_range-addresses n base st h = flush_pages-addresses n 0 base st (omega (arith, h))

module _ (m : Mapper) where
  pub with_same :
      (k : AllocKind) (self : AddressSpace m)
      → with_region_allocator m self k (region_allocator_for m self k) ≡ self
  unfolding region_allocator_for with_region_allocator
  with_same heap self = refl
  with_same kernel_vm self = refl

  pub for_with :
      (k : AllocKind) (self : AddressSpace m) (a : RegionAllocator)
      → region_allocator_for m (with_region_allocator m self k a) k ≡ a
  unfolding region_allocator_for with_region_allocator
  for_with heap self a = refl
  for_with kernel_vm self a = refl

  pub gave_back_twice :
      (k : AllocKind) (self : AddressSpace m) (a t : RegionAllocator) (mapper : m.Self)
      → gave_back m k t (with_region_allocator m self k a) mapper ≡ gave_back m k t self mapper
  unfolding with_region_allocator
  gave_back_twice heap self a t mapper = refl
  gave_back_twice kernel_vm self a t mapper = refl

  pub mapper_with :
      (k : AllocKind) (self : AddressSpace m) (a : RegionAllocator)
      → (with_region_allocator m self k a).mapper ≡ self.mapper
  unfolding with_region_allocator
  mapper_with heap self a = refl
  mapper_with kernel_vm self a = refl

  pub with_mapper :
      (k : AllocKind) (self : AddressSpace m) (a : RegionAllocator) (mapper : m.Self)
      → record (with_region_allocator m self k a) { mapper = mapper } ≡ gave_back m k a self mapper
  unfolding with_region_allocator
  with_mapper heap self a mapper = refl
  with_mapper kernel_vm self a mapper = refl
