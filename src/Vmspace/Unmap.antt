-- ===== src/Vmspace/Unmap.antt =====
-- What `NX_VmspaceUnmap` and `NX_VmspaceExit` of src/mm/vmspace.c do to the mapping.
use nxos.Base.{
  ℕ, ◌+◌, ◌≤◌, ◌<◌, ◌^◌, ◌%◌, ◌≡◌, ◌≢◌, refl, sym, ap, subst, ◌∙◌, ◌⊎◌, inl, inr, Bool, not, ◌&&◌,
  ◌||◌, none, some, List, ◌++◌, arith, ltb, leb, ◌==◌, if◌then◌else◌, Option-cases, Bool-cases,
  Error, eok, einval, enomem, efault, is_eok, is_eok-eok, is_eok-enomem, is_eok→eq, false,
  page_size, page_align_up, add_word,
}
use nxos.Vmnode.{Vmnode, Focus, nodes_of, insert_node, merge_node, find_node, split_node}
use nxos.Vmnode.Order.{Ordered, covers, lookup, last_end, lookup-above, end-le-last_end}
use nxos.Vmnode.Merge.{Same, Same-trans, merge_node-Merged}
use nxos.Vmnode.Split.{find_node-some, split_node-SplitOutcome, remove_node_lem, insert_node-again}
use nxos.Vmspace.{MmuOps, Vmspace, Run, finish_unmap, vmspace_unmap}
use nxos.Vmspace.Map.{IsValid, SameLayout, keep-IsValid}

module _ {M : Type 0} where
  -- Every address of `[addr, addr + len)` is unmapped, and any other is mapped as in `s`.
  abbrev pub UnmapsArea : (s s' : Vmspace M) → (addr len : ℕ) → Type 0
  UnmapsArea s s' addr len =
      (a : ℕ)
      → lookup s'.nodes a ≡ (if leb addr a && ltb a (addr + len) then none else lookup s.nodes a)

  Same-IsValid :
      (s : Vmspace M) (m : M) (xs : List Vmnode)
      → IsValid s
      → Same 0 s.nodes xs
      → IsValid (record s { mmu = m; nodes = xs })
  Same-IsValid s m xs v same =
      keep-IsValid s m xs v same.ordered
        (λ a le. same.alike a ∙ lookup-above 0 a s.nodes v.ordered (omega (arith, v.below_top)))

module _ {M : Type 0} (ops : MmuOps M) where
  -- The call came to an end with a valid space of the same layout. It unmapped the area in the list of
  -- nodes and by one call of the page tables, or it answered an error and kept the mapping of every
  -- address in the list, and the page tables too unless it was they that refused the area.
  abbrev pub UnmapOutcome : Vmspace M → (addr len : ℕ) → Run M Error → Type 0
  UnmapOutcome s addr len r =
      (s' : Vmspace M) × (err : Error) × (r ≡ some (s', err))
      × IsValid s'
      × SameLayout s s'
      × (((err ≡ eok) × UnmapsArea s s' addr len × (ops.unmap_page s.mmu addr len ≡ (s'.mmu, eok)))
          ⊎ ((err ≢ eok)
              × ((a : ℕ) → lookup s'.nodes a ≡ lookup s.nodes a)
              × ((s'.mmu ≡ s.mmu)
                  ⊎ ((refusal : Error) × (refusal ≢ eok)
                      × (ops.unmap_page s.mmu addr len ≡ (s'.mmu, refusal))))))

  finish_unmap-UnmapOutcome :
      (s : Vmspace M) (f : Focus) (addr len : ℕ)
      → IsValid s
      → Same 0 s.nodes (nodes_of f)
      → f.node.start ≡ addr
      → f.node.end ≡ addr + len
      → UnmapOutcome s addr len (finish_unmap ops s f addr len)
  unfolding finish_unmap
  finish_unmap-UnmapOutcome s f addr len v same at_start at_end = elim (Bool-cases (is_eok err)) [
    | inl done ↦ (
      record s { mmu = m; nodes = f.before ++ f.after },
      eok,
      rw (done, finish_unmap),
      keep-IsValid s m (f.before ++ f.after) v removed.0 (λ a le.
          ground
            (arith, removed.1 a, same.alike a, lookup-above 0 a s.nodes v.ordered, v.below_top)),
      refl,
      inl (
        refl,
        (λ a. ground (arith, removed.1 a, same.alike a, at_start, at_end)),
        ap (λ x. (m, x)) (is_eok→eq err done),
      ),
    )
    | inr refused ↦ (
      record s { mmu = m; nodes = nodes_of g },
      efault,
      rw (refused, merged, finish_unmap),
      Same-IsValid s m (nodes_of g) v back,
      refl,
      inr (cc, back.alike, inr (err, not_eok refused, refl)),
    )
  ]
    where
      m : M
      m = (ops.unmap_page s.mmu addr len).0

      err : Error
      err = (ops.unmap_page s.mmu addr len).1

      not_eok : is_eok err ≡ false → err ≢ eok
      not_eok h e = ground (arith, h, ap is_eok e, is_eok-eok)

      removed :
          Ordered 0 (f.before ++ f.after)
          × ((a : ℕ)
              → lookup (f.before ++ f.after) a
                ≡ (if covers f.node a then none else lookup (nodes_of f) a))
      removed = remove_node_lem 0 f same.ordered

      again : Same 0 (nodes_of f) (nodes_of (insert_node (f.before ++ f.after) f.node))
      again = insert_node-again 0 f same.ordered

      g : Focus
      g = (merge_node-Merged 0 (insert_node (f.before ++ f.after) f.node) again.ordered).0

      merged : merge_node (insert_node (f.before ++ f.after) f.node) ≡ some g
      merged = (merge_node-Merged 0 (insert_node (f.before ++ f.after) f.node) again.ordered).1

      back : Same 0 s.nodes (nodes_of g)
      back = Same-trans 0 s.nodes (nodes_of f) (nodes_of g) same (
          Same-trans 0 (nodes_of f) _ (nodes_of g) again
            (merge_node-Merged 0 (insert_node (f.before ++ f.after) f.node) again.ordered).2)

  end-le : (s : Vmspace M) (f : Focus) → nodes_of f ≡ s.nodes → IsValid s → f.node.end ≤ s.space_top
  end-le s f e v = omega (
    arith,
    end-le-last_end 0 f.before f.after f.node (subst (Ordered 0) (sym e) v.ordered),
    ap (last_end 0) e,
    v.below_top,
  )

  split-UnmapOutcome :
      (got_prev got_next : Bool) (s : Vmspace M) (f : Focus) (addr len : ℕ)
      → IsValid s
      → nodes_of f ≡ s.nodes
      → f.node.start ≤ addr
      → addr + len ≤ f.node.end
      → f.node.end < 2 ^ 64
      → 0 < len
      → UnmapOutcome s addr len (
          let (g, err) = split_node got_prev got_next f addr len in
          if is_eok err
          then finish_unmap ops s g addr len
          else some (record s { nodes = nodes_of g }, enomem))
  split-UnmapOutcome got_prev got_next s f addr len v e from upto small pos =
      elim (split_node-SplitOutcome 0 got_prev got_next f addr len
        (subst (Ordered 0) (sym e) v.ordered) from upto small pos) [
          | inl (ok, same, at_start, at_end) ↦
              let (s', err, done, v', lay, what) =
                finish_unmap-UnmapOutcome s (split_node got_prev got_next f addr len).0 addr len v
                  (subst (λ xs. Same 0 xs (nodes_of (split_node got_prev got_next f addr len).0)) e
                    same)
                  at_start at_end in
              (s', err, ground (arith, ok, is_eok-eok, done), v', lay, what)
          | inr (full, same) ↦ (
            s,
            enomem,
            ground (arith, full, same, e, is_eok-enomem),
            v,
            refl,
            inr (cc, (λ a. refl), inl refl),
          )
        ]

  pub vmspace_unmap-UnmapOutcome :
      (got_prev got_next : Bool) (s : Vmspace M) (addr size : ℕ)
      → IsValid s
      → size ≤ s.space_top
      → UnmapOutcome s addr (page_align_up size) (vmspace_unmap ops got_prev got_next s addr size)
  unfolding vmspace_unmap
  vmspace_unmap-UnmapOutcome got_prev got_next s addr size v few =
      elim (Bool-cases (
        addr == 0
        || size == 0
        || not (addr % page_size == 0)
        || ltb addr s.space_base
        || leb s.space_top addr
        || ltb s.space_top (add_word addr size))) [
          | inl bad ↦ (s, einval, rw bad, v, refl, inr (cc, (λ a. refl), inl refl))
          | inr good ↦ elim (Option-cases (find_node s.nodes addr (page_align_up size))) [
            | inl miss ↦ (
              s,
              efault,
              rw (good, miss, vmspace_unmap),
              v,
              refl,
              inr (cc, (λ a. refl), inl refl),
            )
            | inr (f, hit) ↦
                let (whole, from, upto) = find_node-some s.nodes addr (page_align_up size) f hit in
                rw (good, hit, vmspace_unmap)
                  (split-UnmapOutcome got_prev got_next s f addr (page_align_up size) v whole from
                    (ground (arith, good, upto, v.small))
                    (omega (arith, end-le s f whole v, v.small, v.below_top))
                    (ground (arith, good, v.small)))
          ]
        ]
