-- ===== src/Vmspace/Heap.antt =====
-- What `NX_VmspaceUpdateHeap` of src/mm/vmspace.c does to the heap and to the mapping.
use nxos.Base.{
  ℕ, ◌+◌, ◌≤◌, ◌<◌, ◌≡◌, ◌≢◌, ◌-◌, refl, sym, ap, ◌∙◌, ◌⊎◌, inl, inr, Bool, true, false, not, ◌&&◌,
  none, some, arith, ltb, leb, ◌==◌, if◌then◌else◌, Bool-cases, ℕ_discrete, dec_lt, Error, eok,
  einval, enomem, efault, is_eok, is_eok→eq, page_align_up, page_align_down, sub_word,
}
use nxos.Vmnode.Order.{lookup}
use nxos.Vmnode.Insert.{NoneInside}
use nxos.Vmspace.{MmuOps, Vmspace, RunMap, grow_heap, shrink_heap, update_heap}
use nxos.Vmspace.Map.{IsValid, MapsArea, Backed, vmspace_map-fixed}
use nxos.Vmspace.Unmap.{UnmapsArea, vmspace_unmap-UnmapOutcome}

module _ {M : Type 0} where
  -- The pages between the old and the new end of the heap came in or went, and no other mapping
  -- changed.
  abbrev pub HeapMoved : (s s' : Vmspace M) → (attr old new : ℕ) → Type 0
  HeapMoved s s' attr old new =
      (a : ℕ)
      → lookup s'.nodes a ≡ (
          if leb old a && ltb a new
          then some (attr, 0)
          else if leb new a && ltb a old
          then none
          else lookup s.nodes a)

  move-IsValid : (s : Vmspace M) (addr : ℕ) → IsValid s → IsValid (record s { heap_current = addr })
  move-IsValid s addr v = record {
    ordered = v.ordered;
    below_top = v.below_top;
    aligned = v.aligned;
    small = v.small;
  }

module _ {M : Type 0} (ops : MmuOps M) where
  -- The page tables between the two states: one call maps just the pages added, at their address, or one
  -- call unmaps just the pages given up, or there is none.
  abbrev pub TablesMoved : (m m' : M) → (attr old new : ℕ) → Type 0
  TablesMoved m m' attr old new =
      ((old < new) × (ops.map_page m old (new - old) attr ≡ (m', old)))
      ⊎ ((new < old) × (ops.unmap_page m new (old - new) ≡ (m', eok)))
      ⊎ ((old ≡ new) × (m' ≡ m))

  -- The heap was moved to the address; or the call only asked for its end; or it was refused.
  abbrev pub HeapOutcome : Vmspace M → (attr addr : ℕ) → RunMap M → Type 0
  HeapOutcome s attr addr r =
      (s' : Vmspace M) × (err : Error) × (out : ℕ) × (r ≡ some (s', err, out))
      × IsValid s'
      × (((err ≡ eok)
            × (out ≡ addr)
            × (s'.heap_current ≡ addr)
            × (s.heap_start ≤ addr)
            × (addr < s.heap_end)
            × HeapMoved s s' attr (page_align_up s.heap_current) (page_align_up addr)
            × TablesMoved s.mmu s'.mmu attr (page_align_up s.heap_current) (page_align_up addr))
          ⊎ ((addr ≡ 0) × (err ≡ eok) × (out ≡ s.heap_current) × (s' ≡ s))
          ⊎ ((out ≡ 0) × (s'.heap_current ≡ s.heap_current)))

  -- A call of either end of `NX_VmspaceUpdateHeap` moves the heap or keeps its end.
  abbrev Moved : Vmspace M → (attr addr : ℕ) → RunMap M → Type 0
  Moved s attr addr r =
      (s' : Vmspace M) × (err : Error) × (out : ℕ) × (r ≡ some (s', err, out))
      × IsValid s'
      × (((err ≡ eok)
            × (out ≡ addr)
            × (s'.heap_current ≡ addr)
            × HeapMoved s s' attr (page_align_up s.heap_current) (page_align_up addr)
            × TablesMoved s.mmu s'.mmu attr (page_align_up s.heap_current) (page_align_up addr))
          ⊎ ((out ≡ 0) × (s'.heap_current ≡ s.heap_current)))

  grow_heap-Moved :
      (attr : ℕ) (allocated : Bool) (s : Vmspace M) (addr old new : ℕ)
      → IsValid s
      → old ≡ page_align_up s.heap_current
      → new ≡ page_align_up addr
      → old ≢ 0
      → old < new
      → new ≤ s.space_top
      → NoneInside old new s.nodes
      → Moved s attr addr (grow_heap ops attr allocated s addr old new)
  unfolding grow_heap
  grow_heap-Moved attr allocated s addr old new v at_old at_new ne lt under clear =
      let (s', err, out, e, v', lay, what) =
        vmspace_map-fixed ops allocated s old 0 (sub_word new old) attr 0 v ne
          (omega (arith, v.small)) (rw (down, up) clear) in
      elim (Bool-cases (is_eok err && out == old)) [
        | inl good ↦ (
          record s' { heap_current = addr },
          eok,
          addr,
          rw (e, good, grow_heap),
          move-IsValid s' addr v',
          inl (
            refl,
            refl,
            refl,
            moved s' err out (ground (arith, good)) what,
            tables s' err out (ground (arith, good)) (ground (arith, good)) what,
          ),
        )
        | inr bad ↦ (
          s',
          err,
          0,
          rw (e, bad, grow_heap),
          v',
          inr (refl, ap (λ (t : Vmspace M). t.heap_current) lay),
        )
      ]
    where
      down : page_align_down old ≡ old
      down = omega (arith, at_old)

      up : old + page_align_up (sub_word new old) ≡ new
      up = omega (arith, at_old, at_new, v.small)

      What : (s' : Vmspace M) (err : Error) (out : ℕ) → Type 0
      What s' err out =
          ((err ≡ eok)
            × MapsArea s s' (page_align_down old) (page_align_up (sub_word new old)) attr 0
            × Backed ops s.mmu (page_align_down old) 0 (page_align_up (sub_word new old)) attr 0
                s'.mmu out)
          ⊎ ((err ≢ eok)
              × (s'.nodes ≡ s.nodes)
              × ((s'.mmu ≡ s.mmu)
                  ⊎ Backed ops s.mmu (page_align_down old) 0 (page_align_up (sub_word new old)) attr
                      0 s'.mmu 0))

      moved :
          (s' : Vmspace M) (err : Error) (out : ℕ)
          → is_eok err ≡ true
          → What s' err out
          → HeapMoved s s' attr (page_align_up s.heap_current) (page_align_up addr)
      moved s' err out good (inl (ok, maps, _)) =
          λ a. rw (← at_old, ← at_new) (ground (arith, maps a, down, up, lt))
      moved s' err out good (inr (bad, _, _)) = absurd (bad (is_eok→eq err good))

      tables_of :
          (m' : M) (out a l : ℕ)
          → a ≡ old
          → l ≡ new - old
          → out ≡ old
          → Backed ops s.mmu a 0 l attr 0 m' out
          → TablesMoved s.mmu m' attr old new
      tables_of m' out a l e f o (inl (late, _, _)) = absurd (ground (arith, late))
      tables_of m' out a l e f o (inr (inr (now, given, _))) = absurd (given refl)
      tables_of m' out a l e f o (inr (inl (now, _, run))) = inl (
        lt,
        ap (λ x. ops.map_page s.mmu x (new - old) attr) (sym e)
            ∙ ap (λ x. ops.map_page s.mmu a x attr) (sym f)
            ∙ sym run
            ∙ ap (λ x. (m', x)) o,
      )

      tables :
          (s' : Vmspace M) (err : Error) (out : ℕ)
          → is_eok err ≡ true
          → out ≡ old
          → What s' err out
          → TablesMoved s.mmu s'.mmu attr (page_align_up s.heap_current) (page_align_up addr)
      tables s' err out good o (inl (ok, _, backed)) =
          rw (← at_old, ← at_new)
            (tables_of s'.mmu out (page_align_down old) (page_align_up (sub_word new old)) down
              (omega (arith, up, lt)) o backed)
      tables s' err out good o (inr (bad, _, _)) = absurd (bad (is_eok→eq err good))

  shrink_heap-Moved :
      (attr : ℕ) (got_prev got_next : Bool) (s : Vmspace M) (addr old new : ℕ)
      → IsValid s
      → old ≡ page_align_up s.heap_current
      → new ≡ page_align_up addr
      → new < old
      → old ≤ s.space_top
      → Moved s attr addr (shrink_heap ops got_prev got_next s addr old new)
  unfolding shrink_heap
  shrink_heap-Moved attr got_prev got_next s addr old new v at_old at_new lt under =
      let (s', err, e, v', lay, what) =
        vmspace_unmap-UnmapOutcome ops got_prev got_next s new (sub_word old new) v
          (omega (arith, v.small)) in
      elim (Bool-cases (is_eok err)) [
        | inl good ↦ (
          record s' { heap_current = addr },
          eok,
          addr,
          rw (e, good, shrink_heap),
          move-IsValid s' addr v',
          inl (refl, refl, refl, moved s' err good what, tables s' err good what),
        )
        | inr bad ↦ (
          s',
          err,
          0,
          rw (e, bad, shrink_heap),
          v',
          inr (refl, ap (λ (t : Vmspace M). t.heap_current) lay),
        )
      ]
    where
      up : new + page_align_up (sub_word old new) ≡ old
      up = omega (arith, at_old, at_new, v.small)

      len : ℕ
      len = page_align_up (sub_word old new)

      What : (s' : Vmspace M) (err : Error) → Type 0
      What s' err =
          ((err ≡ eok) × UnmapsArea s s' new len × (ops.unmap_page s.mmu new len ≡ (s'.mmu, eok)))
          ⊎ ((err ≢ eok)
              × ((a : ℕ) → lookup s'.nodes a ≡ lookup s.nodes a)
              × ((s'.mmu ≡ s.mmu)
                  ⊎ ((refusal : Error) × (refusal ≢ eok)
                      × (ops.unmap_page s.mmu new len ≡ (s'.mmu, refusal)))))

      moved :
          (s' : Vmspace M) (err : Error)
          → is_eok err ≡ true
          → What s' err
          → HeapMoved s s' attr (page_align_up s.heap_current) (page_align_up addr)
      moved s' err good (inl (ok, unmaps, _)) =
          λ a. rw (← at_old, ← at_new) (ground (arith, unmaps a, up, lt))
      moved s' err good (inr (bad, _, _)) = absurd (bad (is_eok→eq err good))

      tables :
          (s' : Vmspace M) (err : Error)
          → is_eok err ≡ true
          → What s' err
          → TablesMoved s.mmu s'.mmu attr (page_align_up s.heap_current) (page_align_up addr)
      tables s' err good (inr (bad, _, _)) = absurd (bad (is_eok→eq err good))
      tables s' err good (inl (ok, _, run)) =
          rw (← at_old, ← at_new)
            (inr (
              inl (
                lt,
                ap (λ x. ops.unmap_page s.mmu new x) {x = old - new} {y = len}
                      (omega (arith, up, lt))
                    ∙ run,
              )))

  place :
      (attr : ℕ) (s : Vmspace M) (addr : ℕ) (r r' : RunMap M)
      → r' ≡ r
      → s.heap_start ≤ addr
      → addr < s.heap_end
      → Moved s attr addr r
      → HeapOutcome s attr addr r'
  place attr s addr r r' same low high (s', err, out, e, v', inl (ok, at, cur, moved, tables)) =
      (s', err, out, same ∙ e, v', inl (ok, at, cur, low, high, moved, tables))
  place attr s addr r r' same low high (s', err, out, e, v', inr kept) =
      (s', err, out, same ∙ e, v', inr (inr kept))

  -- An address in the heap area.
  update_heap_inside :
      (attr : ℕ) (allocated got_prev got_next : Bool) (s : Vmspace M) (addr : ℕ)
      → IsValid s
      → 0 < s.heap_current
      → s.heap_current ≤ s.heap_end
      → s.heap_end ≤ s.space_top
      → NoneInside (page_align_up s.heap_current) (page_align_up addr) s.nodes
      → not (ops.has_table s.mmu) ≡ false
      → addr ≢ 0
      → s.heap_start ≤ addr
      → addr < s.heap_end
      → HeapOutcome s attr addr (update_heap ops attr allocated got_prev got_next s addr)
  unfolding update_heap
  update_heap_inside attr allocated got_prev got_next s addr v pos within under clear table goal
        above inside =
      elim (dec_lt old new) [
        | yes up ↦
            place attr s addr (grow_heap ops attr allocated s addr old new) _
              (ground (arith, table, goal, above, inside, up)) above inside
              (grow_heap-Moved attr allocated s addr old new v refl refl
                (ground (arith, pos, within, under, v.small)) up (omega (arith, v.aligned, v.small))
                clear)
        | no not_up ↦ elim (dec_lt new old) [
          | yes down ↦
              place attr s addr (shrink_heap ops got_prev got_next s addr old new) _
                (ground (arith, table, goal, above, inside, not_up, down)) above inside
                (shrink_heap-Moved attr got_prev got_next s addr old new v refl refl down
                  (omega (arith, v.aligned, v.small)))
          | no not_down ↦ (
            record s { heap_current = addr },
            eok,
            addr,
            ground (arith, table, goal, above, inside, not_up, not_down),
            move-IsValid s addr v,
            inl (
              refl,
              refl,
              refl,
              above,
              inside,
              (λ a. ground (arith, not_up, not_down)),
              inr (inr (omega (arith, not_up, not_down), refl)),
            ),
          )
        ]
      ]
    where
      old : ℕ
      old = page_align_up s.heap_current

      new : ℕ
      new = page_align_up addr

  -- `NX_VmspaceUpdateHeap` in a valid space whose heap lies below the top, with no node strictly
  -- inside the pages to be added, comes to an end with a valid space. Either the heap ends at the
  -- very address asked for, at a page or not, which lies in the heap area, exactly the pages between
  -- the old and the new end, rounded up, came in or went in the list of nodes and by one call of the
  -- page tables, and no other mapping changed; or address 0 asked for the current end, and nothing
  -- changed; or it returns NX_NULL and the current end of the heap is kept.
  pub update_heap-HeapOutcome :
      (attr : ℕ) (allocated got_prev got_next : Bool) (s : Vmspace M) (addr : ℕ)
      → IsValid s
      → 0 < s.heap_current
      → s.heap_current ≤ s.heap_end
      → s.heap_end ≤ s.space_top
      → NoneInside (page_align_up s.heap_current) (page_align_up addr) s.nodes
      → HeapOutcome s attr addr (update_heap ops attr allocated got_prev got_next s addr)
  unfolding update_heap
  update_heap-HeapOutcome attr allocated got_prev got_next s addr v pos within under clear =
      elim (Bool-cases (not (ops.has_table s.mmu))) [
        | inl bare ↦ (s, efault, 0, rw bare, v, inr (inr (refl, refl)))
        | inr table ↦ elim (ℕ_discrete addr 0) [
          | yes ask ↦ (
            s,
            eok,
            s.heap_current,
            ground (arith, table, ask),
            v,
            inr (inl (ask, refl, refl, refl)),
          )
          | no goal ↦ elim (dec_lt addr s.heap_start) [
            | yes low ↦ (s, einval, 0, ground (arith, table, goal, low), v, inr (inr (refl, refl)))
            | no above ↦ elim (dec_lt addr s.heap_end) [
              | no high ↦ (
                s,
                enomem,
                0,
                ground (arith, table, goal, above, high),
                v,
                inr (inr (refl, refl)),
              )
              | yes inside ↦
                  update_heap_inside attr allocated got_prev got_next s addr v pos within under
                    clear table goal (omega arith) inside
            ]
          ]
        ]
      ]
