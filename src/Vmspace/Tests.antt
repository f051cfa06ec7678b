-- ===== src/Vmspace/Tests.antt =====
-- A space with one node, over page tables that accept every call.
use nxos.Base.{
  ℕ, ◌+◌, ◌≤◌, ◌<◌, ◌≡◌, ◌≢◌, ◌⊎◌, refl, inl, true, none, some, Error, [], ◌∷◌, arith, eok, is_eok,
  page_align_up, page_align_down,
}
use nxos.Vmnode.{Vmnode, vmnode_create, free_address}
use nxos.Vmnode.Order.{covers}
use nxos.Vmspace.{MmuOps, Vmspace, vmspace_map, vmspace_exit, update_heap}
use nxos.Vmspace.Map.{IsValid, MapOutcome, vmspace_map-fixed, vmspace_map-anywhere}
use nxos.Vmspace.Heap.{HeapOutcome, update_heap-HeapOutcome}
use nxos.Vmspace.Overlap.{vmspace_map-overlap}

-- The state counts the bytes mapped.
abbrev plain_mmu : MmuOps ℕ
plain_mmu = record {
  map_page = λ m vaddr size attr. (m + size, vaddr);
  map_page_with_phy = λ m vaddr paddr size attr. (m + size, vaddr);
  unmap_page = λ m addr size. (m, eok);
  vir2phy = λ m addr. addr;
  has_table = λ m. true;
  page_increase = λ m paddr. m;
  free_table = λ m. (m, eok);
}

abbrev one_node : Vmnode
one_node = record { start = 8192; end = 12288; attr = 7; flags = 0 }

abbrev space : Vmspace ℕ
space = record {
  mmu = 0;
  nodes = one_node ∷ [];
  space_base = 4096;
  space_top = 1048576;
  image_start = 4096;
  image_end = 4096;
  heap_start = 16384;
  heap_end = 131072;
  heap_current = 16384;
  map_start = 262144;
  map_end = 524288;
  stack_start = 524288;
  stack_end = 1044480;
  stack_bottom = 1044480;
}

space-IsValid : IsValid space
space-IsValid = record {
  ordered = (omega arith, omega arith, tt);
  below_top = omega arith;
  aligned = refl;
  small = omega arith;
}

vmspace_map-fixed_example :
    MapOutcome plain_mmu space
      (page_align_down 40960)
      0
      (page_align_up 4096)
      7
      0
      (vmspace_map plain_mmu true space 40960 0 4096 7 0)
vmspace_map-fixed_example =
    vmspace_map-fixed plain_mmu true space 40960 0 4096 7 0 space-IsValid
      (λ e. absurd (omega arith)) (omega arith) (inl (omega arith), tt)

vmspace_map-anywhere_example :
    ((err : Error) × (free_address 262144 524288 4096 space.nodes ≡ none)
      × (err ≢ eok)
      × (vmspace_map plain_mmu true space 0 0 4096 7 0 ≡ some (space, err, 0)))
    ⊎ ((free : ℕ) × (free_address 262144 524288 4096 space.nodes ≡ some free)
        × ((524288 < free + page_align_up 4096)
            ⊎ MapOutcome plain_mmu space
                (page_align_down free)
                0
                (page_align_up 4096)
                7
                0
                (vmspace_map plain_mmu true space 0 0 4096 7 0)))
vmspace_map-anywhere_example =
    vmspace_map-anywhere plain_mmu true space 0 4096 7 0 space-IsValid (omega arith) (omega arith)
      refl (omega arith) (omega arith) (refl, refl, tt)

update_heap-HeapOutcome_example :
    HeapOutcome plain_mmu space 7 20480 (update_heap plain_mmu 7 true true true space 20480)
update_heap-HeapOutcome_example =
    update_heap-HeapOutcome plain_mmu 7 true true true space 20480 space-IsValid (omega arith)
      (omega arith) (omega arith) (inl (omega arith), tt)

vmspace_map-overlap_example :
    (s' : Vmspace ℕ) × (vmspace_map plain_mmu true space 4096 0 12288 7 1 ≡ some (s', eok, 4096))
    × (s'.nodes ≡ vmnode_create 4096 12288 7 1 ∷ one_node ∷ [])
    × ((a : ℕ)
        → 8192 ≤ a
        → a < 12288
        → (covers one_node a ≡ true) × (covers (vmnode_create 4096 12288 7 1) a ≡ true))
vmspace_map-overlap_example =
    vmspace_map-overlap plain_mmu space one_node 4096 12288 7 1 refl refl refl (omega arith)
      (omega arith) (omega arith) (omega arith) (omega arith) refl (omega arith) (omega arith)
      (omega arith)

-- The space at its end: the node is unmapped and the page table freed.
space_ends : vmspace_exit plain_mmu (some space) ≡ some (some (record space { nodes = [] }), eok)
unfolding vmspace_exit is_eok
space_ends = refl
