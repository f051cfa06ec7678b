-- ===== src/Vmspace.antt =====
-- src/mm/vmspace.c: the virtual address space of a process. The page tables behind
-- NX_MmuOpsInterface and the page references that NX_PageIncrease counts are the state `M` of the
-- parameter `ops`. A null pointer to the space is `none`. What NX_MemAlloc answers is an argument.
-- The outer `none` of a result stands for a failed NX_ASSERT or the use of a freed node. The spin
-- lock is not represented.
pub mod Map
pub mod Unmap
pub mod Heap
pub mod Overlap
mod Tests
use nxos.Base.{
  ℕ, ◌+◌, ◌-◌, ◌%◌, ◌≡◌, Bool, true, false, not, ◌&&◌, ◌||◌, Option, none, some, List, [], ◌∷◌,
  ◌++◌, ltb, leb, ◌==◌, if◌then◌else◌, add_word, sub_word, page_size, page_align_down,
  page_align_up, ◌>>=◌, Error, is_eok, eok, einval, enomem, efault,
}
use nxos.Vmnode.{
  Vmnode, Focus, nodes_of, vmnode_create, insert_node, merge_node, split_node, find_node, collides,
  free_address,
}

-- What the architecture gives: pages mapped, with or without a physical address, and unmapped; the
-- physical address behind a virtual one, 0 for none; one more reference to a page; and the page table
-- freed (NX_ProcessFreePageTable). A map call
-- returns 0 for NX_NULL.
pub record MmuOps (M : Type 0) : Type 0 where
  pub map_page : M → (vaddr size attr : ℕ) → M × ℕ
  pub map_page_with_phy : M → (vaddr paddr size attr : ℕ) → M × ℕ
  pub unmap_page : M → (addr size : ℕ) → M × Error
  pub vir2phy : M → ℕ → ℕ
  pub has_table : M → Bool
  pub page_increase : M → ℕ → M
  pub free_table : M → M × Error

-- `NX_Vmspace`
pub record Vmspace (M : Type 0) : Type 0 where
  pub mmu : M
  pub nodes : List Vmnode
  pub space_base : ℕ
  pub space_top : ℕ
  pub image_start : ℕ
  pub image_end : ℕ
  pub heap_start : ℕ
  pub heap_end : ℕ
  pub heap_current : ℕ
  pub map_start : ℕ
  pub map_end : ℕ
  pub stack_start : ℕ
  pub stack_end : ℕ
  pub stack_bottom : ℕ

-- NX_VMSPACE_DELAY_MAP is bit 0 of the flags.
abbrev pub delays : ℕ → Bool
delays flags = flags % 2 == 1

module _ {M : Type 0} where
  -- `NX_VmspaceInit`, over a page table that NX_MmuInit cleared. The last line asserts that the heap
  -- starts at a page.
  pub vmspace_init :
      (mmu : M) (space_base space_top image_start image_end heap_start heap_end : ℕ)
      (map_start map_end stack_start stack_end : ℕ)
      → Option (Vmspace M)
  vmspace_init mmu space_base space_top image_start image_end heap_start heap_end map_start map_end
        stack_start stack_end =
      if heap_start % page_size == 0
      then some (record {
        mmu = mmu;
        nodes = [];
        space_base = space_base;
        space_top = space_top;
        image_start = image_start;
        image_end = image_end;
        heap_start = heap_start;
        heap_end = heap_end;
        heap_current = heap_start;
        map_start = map_start;
        map_end = map_end;
        stack_start = stack_start;
        stack_end = stack_end;
        stack_bottom = stack_end;
      })
      else none

  -- `NX_VmspaceResizeImage`
  pub resize_image : Vmspace M → ℕ → Vmspace M
  resize_image s size =
      let image_end = page_align_up (add_word s.image_start size) in
      let heap_start =
        if ltb (add_word image_end page_size) s.heap_start
        then add_word image_end page_size
        else s.heap_start in
      record s { image_end = image_end; heap_start = heap_start; heap_current = heap_start }

-- A result with the space behind it, or a stop.
abbrev pub Run : Type 0 → Type 0 → Type 0
Run M A = Option (Vmspace M × A)

-- The same for a result that is an error code and an address.
abbrev pub RunMap : Type 0 → Type 0
RunMap M = Option (Vmspace M × Error × ℕ)

module _ {M : Type 0} (ops : MmuOps M) where
  -- The calls into the page tables of `__VmspaceMap`.
  pub back_pages : M → (vaddr paddr size attr flags : ℕ) → M × ℕ
  back_pages m vaddr paddr size attr flags =
      if delays flags
      then (m, vaddr)
      else if paddr == 0
      then ops.map_page m vaddr size attr
      else ops.map_page_with_phy (ops.page_increase m (page_align_down paddr)) vaddr paddr size attr

  -- The end of `__VmspaceMap`, from the new node in its list on. Taking the node off again leaves the
  -- list without it.
  pub finish_map : Vmspace M → Focus → (paddr size attr flags : ℕ) → RunMap M
  unfolding back_pages
  finish_map s f paddr size attr flags =
      let (m, mapped) = back_pages s.mmu f.node.start paddr size attr flags in
      if mapped == 0 && not (delays flags)
      then some (record s { mmu = m; nodes = f.before ++ f.after }, enomem, 0)
      else elim (merge_node f) [
        | none ↦ none
        | some g ↦ some (record s { mmu = m; nodes = nodes_of g }, eok, mapped)
      ]

  -- `__VmspaceMap` from the alignment of the address on.
  pub map_at : (allocated : Bool) → Vmspace M → (vaddr paddr size attr flags : ℕ) → RunMap M
  unfolding finish_map
  map_at allocated s vaddr paddr size attr flags =
      let addr = page_align_down vaddr in
      let len = page_align_up size in
      if collides s.nodes addr len
      then some (s, einval, 0)
      else if not allocated
      then some (s, enomem, 0)
      else finish_map s (insert_node s.nodes (vmnode_create addr len attr flags)) paddr len attr
          flags

  -- `__VmspaceMap`; the number of the result is `*outAddr`, 0 where it is not written.
  pub vmspace_map : (allocated : Bool) → Vmspace M → (vaddr paddr size attr flags : ℕ) → RunMap M
  unfolding map_at
  vmspace_map allocated s vaddr paddr size attr flags =
      if size == 0 || attr == 0
      then some (s, einval, 0)
      else if not (vaddr == 0) && (ltb vaddr s.space_base || ltb (sub_word s.space_top size) vaddr)
      then some (s, einval, 0)
      else if vaddr == 0
      then elim (free_address s.map_start s.map_end size s.nodes) [
        | none ↦ some (s, enomem, 0)
        | some free ↦ map_at allocated s free paddr size attr flags
      ]
      else map_at allocated s vaddr paddr size attr flags

  -- The end of `NX_VmspaceUnmap`, from the node cut to size on: it is taken off the list, and linked
  -- and merged again when the page tables refuse.
  pub finish_unmap : Vmspace M → Focus → (addr size : ℕ) → Run M Error
  finish_unmap s f addr size =
      let (m, err) = ops.unmap_page s.mmu addr size in
      let rest = f.before ++ f.after in
      if is_eok err
      then some (record s { mmu = m; nodes = rest }, eok)
      else elim (merge_node (insert_node rest f.node)) [
        | none ↦ none
        | some g ↦ some (record s { mmu = m; nodes = nodes_of g }, efault)
      ]

  -- `NX_VmspaceUnmap`
  pub vmspace_unmap : (got_prev got_next : Bool) → Vmspace M → (addr size : ℕ) → Run M Error
  unfolding finish_unmap
  vmspace_unmap got_prev got_next s addr size =
      if addr == 0
        || size == 0
        || not (addr % page_size == 0)
        || ltb addr s.space_base
        || leb s.space_top addr
        || ltb s.space_top (add_word addr size)
      then some (s, einval)
      else (let len = page_align_up size in
          elim (find_node s.nodes addr len) [
            | none ↦ some (s, efault)
            | some f ↦
                let (g, err) = split_node got_prev got_next f addr len in
                if is_eok err
                then finish_unmap s g addr len
                else some (record s { nodes = nodes_of g }, enomem)
          ])

  -- `NX_VmspaceVirToPhy`
  pub vir_to_phy : Vmspace M → ℕ → ℕ
  vir_to_phy s addr =
      if not (ops.has_table s.mmu) || ltb addr s.space_base || leb s.space_top addr
      then 0
      else ops.vir2phy s.mmu addr

  -- The loop of `NX_VmspaceExit`: each node in turn is unmapped and dropped.
  exit_loop : Vmspace M → List Vmnode → Option (Vmspace M)
  exit_loop s [] = some (record s { nodes = [] })
  exit_loop s (x ∷ xs) =
      let (m, err) = ops.unmap_page s.mmu x.start (sub_word x.end x.start) in
      let rest = exit_loop (record s { mmu = m; nodes = xs }) xs in
      if is_eok err then rest else none

  -- The end of `NX_VmspaceExit`: the page table is freed.
  free_table_of : Vmspace M → Option (Vmspace M)
  free_table_of s =
      let (m, err) = ops.free_table s.mmu in
      if is_eok err then some (record s { mmu = m }) else none

  -- `NX_VmspaceExit`
  pub vmspace_exit : Option (Vmspace M) → Option (Option (Vmspace M) × Error)
  unfolding exit_loop free_table_of
  vmspace_exit none = some (none, einval)
  vmspace_exit (some s) = do s1 ← exit_loop s s.nodes; s2 ← free_table_of s1; some (some s2, eok)

  -- The two ends of `NX_VmspaceUpdateHeap`: pages are mapped up to the new end, or unmapped above it.
  pub grow_heap :
      (user_attr : ℕ) (allocated : Bool) → Vmspace M → (addr old_heap new_heap : ℕ) → RunMap M
  grow_heap user_attr allocated s addr old_heap new_heap =
      elim (vmspace_map allocated s old_heap 0 (sub_word new_heap old_heap) user_attr 0) [
        | none ↦ none
        | some (s', err, mapped) ↦
            if is_eok err && mapped == old_heap
            then some (record s' { heap_current = addr }, eok, addr)
            else some (s', err, 0)
      ]

  pub shrink_heap : (got_prev got_next : Bool) → Vmspace M → (addr old_heap new_heap : ℕ) → RunMap M
  shrink_heap got_prev got_next s addr old_heap new_heap =
      elim (vmspace_unmap got_prev got_next s new_heap (sub_word old_heap new_heap)) [
        | none ↦ none
        | some (s', err) ↦
            if is_eok err
            then some (record s' { heap_current = addr }, eok, addr)
            else some (s', err, 0)
      ]

  -- `NX_VmspaceUpdateHeap`; the address is 0 for NX_NULL, and the error is what `*outErr` gets.
  -- NX_PAGE_ATTR_USER is the argument `user_attr`.
  pub update_heap : (user_attr : ℕ) (allocated got_prev got_next : Bool) → Vmspace M → ℕ → RunMap M
  update_heap user_attr allocated got_prev got_next s addr =
      let new_heap = page_align_up addr in
      let old_heap = page_align_up s.heap_current in
      if not (ops.has_table s.mmu)
      then some (s, efault, 0)
      else if addr == 0
      then some (s, eok, s.heap_current)
      else if ltb addr s.heap_start
      then some (s, einval, 0)
      else if leb s.heap_end addr
      then some (s, enomem, 0)
      else if new_heap == old_heap
      then some (record s { heap_current = addr }, eok, addr)
      else if ltb old_heap new_heap
      then grow_heap user_attr allocated s addr old_heap new_heap
      else shrink_heap got_prev got_next s addr old_heap new_heap
