-- ===== src/Mm/AddressSpace/Frames.antt =====
-- The frames that the address space takes from the frame allocator and gives back.
use avent.Base.{
  ℕ, ◌+◌, false, none, some, done, List, [], ◌∷◌, ◌++◌, length, length-append, Distinct-moved,
  All-moved, Fresh-append, ◌≡◌, refl, ap, arith, ◌⊎◌, inl, inr,
}
use avent.Mm.Allocator.{BitmapAllocator, Memory}
use avent.Mm.Allocator.Chain.{frame_of, popped, allocate-popped, allocate-empty}
use avent.Mm.Allocator.Ownership.{
  State, IsSound, popped-IsSound, freed, freed-IsSound, deallocate-freed,
}
use avent.Mm.Init
use avent.Paging.Mapper.{Machine}
use avent.Paging.Trait.{Mapper}
use avent.Mm.AddressSpace.{Platform, try_allocate, deallocate_owned}
use avent.Mm.AddressSpace.Lawful.{Pages, Sound, IsLawful}

-- The frame that was handed out last goes behind those of the list.
moved-IsSound :
    (a : BitmapAllocator) (memory : Memory) (i : ℕ) (chain held tables : List ℕ)
    → IsSound chain (record { allocator = a; memory = memory; held = i ∷ held ++ tables })
    → IsSound chain (record { allocator = a; memory = memory; held = held ++ i ∷ tables })
moved-IsSound a memory i chain held tables v = record {
  holds = v.holds;
  marks = All-moved _ i held tables v.marks;
  tracks = All-moved _ i held tables v.tracks;
  owners = Distinct-moved i held tables v.owners;
  small = omega (arith, v.small, length-append held (i ∷ tables), length-append held tables);
}

append_one :
    (held : List ℕ) (i : ℕ) (tables : List ℕ) → (held ++ (i ∷ [])) ++ tables ≡ held ++ i ∷ tables
append_one [] i tables = refl
append_one (x ∷ held) i tables = ap (λ l. x ∷ l) (append_one held i tables)

module _ (m : Mapper) (L : IsLawful m) where
  pub Sound-moved :
      (self : m.Self) (machine : Machine) (pages : Pages) (i : ℕ) (held : List ℕ) (total : ℕ)
      → Sound m L.Shows self machine pages (i ∷ held) total
      → Sound m L.Shows self machine pages (held ++ (i ∷ [])) total
  Sound-moved self machine pages i held total s = record {
    allocator = s.allocator;
    chain = s.chain;
    tables = s.tables;
    ready = s.ready;
    shows = s.shows;
    sound =
        rw (append_one held i s.tables)
          (moved-IsSound s.allocator machine.memory i s.chain held s.tables s.sound);
    counted =
        rw (append_one held i s.tables) (
          omega (arith, s.counted, length-append held (i ∷ s.tables), length-append held s.tables));
  }

  -- No frame is free.
  abbrev pub Starved : m.Self → Machine → Pages → List ℕ → ℕ → Type 0
  Starved self machine pages held total =
      (s : Sound m L.Shows self machine pages held total) × (s.allocator.free ≡ 0)

  -- What a call of `try_allocate` comes to.
  abbrev pub Tries : m.Self → Platform → Pages → List ℕ → ℕ → Type 0
  Tries self st pages held total =
      ((try_allocate st ≡ done (st, none)) × Starved self st.machine pages held total)
      ⊎ ((i : ℕ) × (machine : Machine) × (try_allocate st
            ≡ done (record st { machine = machine }, some (frame_of i)))
          × Sound m L.Shows self machine pages (i ∷ held) total)

  module _ (self : m.Self) (st : Platform) (pages : Pages) (held : List ℕ) (total : ℕ)
      (free : st.locked ≡ false) (a : BitmapAllocator) (tables : List ℕ)
      (ready : st.machine.frames ≡ some a)
      (shows : L.Shows self st.machine.memory a.hhdm_offset tables pages)
      (counted : a.free + length (held ++ tables) ≡ total) where
    tries :
        (chain : List ℕ)
        → IsSound chain
            (record { allocator = a; memory = st.machine.memory; held = held ++ tables })
        → Tries self st pages held total
    unfolding try_allocate
    tries [] v = inl (
      rw (free, ready, allocate-empty a st.machine.memory v.holds)
          (λ j. done (
            record st {
              machine = record { frames = some a; memory = st.machine.memory };
              locked = free j;
            },
            none,
          )),
      (
        record {
          allocator = a;
          chain = [];
          tables = tables;
          ready = ready;
          shows = shows;
          sound = v;
          counted = counted;
        },
        v.holds.counted,
      ),
    )
    tries (i ∷ is) v =
        let a' = popped a st.machine.memory i in
        let machine = record st.machine { frames = some a' } in
        inr (
          i,
          machine,
          rw (free, ready, allocate-popped a st.machine.memory i is v.holds)
              (λ j. done (record st { machine = machine; locked = free j }, some (frame_of i))),
          record {
            allocator = a';
            chain = is;
            tables = tables;
            ready = refl;
            shows = shows;
            sound =
                popped-IsSound i is
                  (record { allocator = a; memory = st.machine.memory; held = held ++ tables }) v;
            counted = omega (arith, counted, v.holds.counted);
          },
        )

  pub try_allocate-Tries :
      (self : m.Self) (st : Platform) (pages : Pages) (held : List ℕ) (total : ℕ)
      → st.locked ≡ false
      → Sound m L.Shows self st.machine pages held total
      → Tries self st pages held total
  try_allocate-Tries self st pages held total free s =
      tries self st pages held total free s.allocator s.tables s.ready s.shows s.counted s.chain
        s.sound

  pub deallocate_owned-Sound :
      (self : m.Self) (st : Platform) (pages : Pages) (i : ℕ) (held : List ℕ) (total : ℕ)
      → st.locked ≡ false
      → Sound m L.Shows self st.machine pages (i ∷ held) total
      → (machine : Machine) × (deallocate_owned st (frame_of i)
          ≡ done (record st { machine = machine }))
        × Sound m L.Shows self machine pages held total
  unfolding deallocate_owned Init.deallocate
  deallocate_owned-Sound self st pages i held total free s =
      let before : State = record {
        allocator = s.allocator;
        memory = st.machine.memory;
        held = i ∷ held ++ s.tables;
      } in
      let after = freed 0 i before in
      let goes = deallocate-freed 0 i s.chain before refl s.sound in
      (
        record { frames = some after.allocator; memory = after.memory },
        rw (free, s.ready, goes) refl,
        record {
          allocator = after.allocator;
          chain = i ∷ s.chain;
          tables = s.tables;
          ready = refl;
          shows =
              L.keeps self st.machine.memory s.allocator.hhdm_offset s.tables pages i
                s.allocator.free_list_head (Fresh-append i held s.tables s.sound.owners.0).1
                s.shows;
          sound = freed-IsSound 0 i s.chain before refl s.sound;
          counted = omega (arith, s.counted);
        },
      )
