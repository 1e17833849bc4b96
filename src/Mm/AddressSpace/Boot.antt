-- ===== src/Mm/AddressSpace/Boot.antt =====
-- eira/src/mm/address_space.rs and eira/src/arch/x86_64/imp.rs: how an address space is made. The offset
-- of the direct map is an argument.
use avent.Base.Words.{add}
use avent.Base.{ℕ, Outcome, done, panic, expect, ◌>>=◌, if◌then◌else◌}
use avent.Mm.Addr.{page_size}
use avent.Mm.Addr.Phys.{PhysAddr}
use avent.Mm.Frame.{PhysFrame, from_base}
use avent.Mm.Init
use avent.Paging.Mapper.{PageTableMapper, Machine, zero_table}
use avent.Paging.Trait.{Mapper}
use avent.Mm.AddressSpace.{Platform, AddressSpace, from_mapper}

-- eira/src/arch/x86_64/imp.rs, `create_mapper`: the root table is cleared.
unfoldable pub create_mapper : PhysFrame → Machine → ℕ → Outcome (PageTableMapper × Machine)
create_mapper root st hhdm = do
  ptr ← add root.base hhdm
  done (record { pml4 = root; hhdm_offset = hhdm }, record st { memory = zero_table st.memory ptr })

-- eira/src/arch/x86_64/imp.rs, `mapper_from_active`
unfoldable pub mapper_from_active : PhysAddr → ℕ → Outcome PageTableMapper
mapper_from_active root_phys hhdm = do
  root ← from_base page_size root_phys
  root ← expect root
  done (record { pml4 = root; hhdm_offset = hhdm })

-- `from` is `M::from`, for the mapper of the platform.
module _ (m : Mapper) (from : PageTableMapper → m.Self) where
  unfoldable pub new_kernel : Platform → ℕ → Outcome (AddressSpace m × Platform)
  new_kernel st hhdm = if st.locked then panic else do
    (frames, frame) ← Init.allocate st.machine.frames st.machine.memory
    (mapper, machine) ← create_mapper frame (record st.machine { frames = frames }) hhdm
    self ← from_mapper m (from mapper)
    done (self, record st { machine = machine })

  unfoldable pub from_active : PhysAddr → ℕ → Outcome (AddressSpace m)
  from_active root_phys hhdm = do
    mapper ← mapper_from_active root_phys hhdm
    from_mapper m (from mapper)
