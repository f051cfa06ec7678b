-- ===== src/Vmspace/Overlap.antt =====
-- The areas that the collision check of src/mm/vmspace.c does not see.
use nxos.Base.{
  ℕ, ◌+◌, ◌≤◌, ◌<◌, ◌^◌, ◌%◌, ◌≡◌, refl, true, false, some, [], ◌∷◌, arith, eok, page_size,
  page_align_up, page_align_down,
}
use nxos.Vmnode.{Vmnode, vmnode_create, collides}
use nxos.Vmnode.Around.{collides-inside, insert_around, merge_around}
use nxos.Vmnode.Order.{covers}
use nxos.Vmspace.{MmuOps, Vmspace, delays, back_pages, finish_map, map_at, vmspace_map}

module _ {M : Type 0} (ops : MmuOps M) where
  -- In a space with one node that is not empty, a delayed `NX_VmspaceMap` with storage for a node, of
  -- whole pages within the space that go beyond both ends of that node, answers NX_EOK and leaves that
  -- node and one for all the pages asked for, which covers every address of it: the areas overlap.
  pub vmspace_map-overlap :
      (s : Vmspace M) (x : Vmnode) (vaddr size attr flags : ℕ)
      → s.nodes ≡ x ∷ []
      → vaddr % page_size ≡ 0
      → size % page_size ≡ 0
      → s.space_base ≤ vaddr
      → vaddr + size ≤ s.space_top
      → s.space_top < 2 ^ 63
      → 0 < vaddr
      → 0 < attr
      → delays flags ≡ true
      → vaddr < x.start
      → x.start < x.end
      → x.end < vaddr + size
      → (s' : Vmspace M) × (vmspace_map ops true s vaddr 0 size attr flags ≡ some (s', eok, vaddr))
        × (s'.nodes ≡ vmnode_create vaddr size attr flags ∷ x ∷ [])
        × ((a : ℕ)
            → x.start ≤ a
            → a < x.end
            → (covers x a ≡ true) × (covers (vmnode_create vaddr size attr flags) a ≡ true))
  unfolding vmspace_map map_at finish_map back_pages
  vmspace_map-overlap s x vaddr size attr flags one al sal low top small pos at del above filled
        below =
      (
        record s { nodes = n ∷ x ∷ [] },
        ground (
          arith,
          aligned,
          whole,
          clear,
          insert_around n x above filled (omega (arith, n_end)),
          merge_around n x above filled (omega (arith, n_end)),
        ),
        refl,
        λ a low high. (ground (arith, low, high), inside a low high),
      )
    where
      n : Vmnode
      n = vmnode_create vaddr size attr flags

      n_end : n.end ≡ vaddr + size
      n_end = omega arith

      aligned : page_align_down vaddr ≡ vaddr
      aligned = omega arith

      whole : page_align_up size ≡ size
      whole = omega arith

      clear : collides (x ∷ []) vaddr size ≡ false
      clear = collides-inside vaddr size (x ∷ []) (omega arith) (above, filled, below, tt)

      inside : (a : ℕ) → x.start ≤ a → a < x.end → covers n a ≡ true
      inside a low high = ground (arith, n_end, low, high, above, below)
