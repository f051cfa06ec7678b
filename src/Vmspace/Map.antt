-- ===== src/Vmspace/Map.antt =====
-- What `NX_VmspaceMap` of src/mm/vmspace.c does to the mapping that the node list stands for.
use nxos.Base.{
  ℕ, ◌+◌, ◌≤◌, ◌<◌, ◌^◌, ◌%◌, ◌≡◌, ◌≢◌, refl, subst, ◌∙◌, ◌⊎◌, inl, inr, Bool, false, not, ◌&&◌,
  ◌||◌, none, some, List, [], ◌∷◌, ◌++◌, arith, ltb, leb, ◌==◌, ap, true, ℕ_discrete, if◌then◌else◌,
  Bool-cases, Option-cases, dec_lt, Error, eok, einval, enomem, page_size, page_align_up,
  page_align_down, sub_word,
}
use nxos.Vmnode.{
  Vmnode, Focus, nodes_of, vmnode_create, insert_node, merge_node, collides, free_address,
}
use nxos.Vmnode.Order.{Ordered, covers, lookup, last_end, lookup-above, last_end-le_of_lookup}
use nxos.Vmnode.Insert.{
  insert_node_lem, insert_node-node, insert_node-rest, Apart, NoneInside, collides-Apart,
}
use nxos.Vmnode.Merge.{Same, merge_node-Merged}
use nxos.Vmnode.Free.{InPages, ApartInArea, free_address-aligned, free_address-ApartInArea}
use nxos.Vmspace.{MmuOps, Vmspace, RunMap, delays, back_pages, finish_map, map_at, vmspace_map}

module _ {M : Type 0} where
  -- The areas are in order, not empty, apart from one another and below the top of the space, which
  -- is a page address.
  pub record IsValid (s : Vmspace M) : Type 0 where
    pub ordered : Ordered 0 s.nodes
    pub below_top : last_end 0 s.nodes ≤ s.space_top
    pub aligned : s.space_top % page_size ≡ 0
    pub small : s.space_top < 2 ^ 63

  -- Addresses of `[addr, addr + len)` are mapped with the attributes and flags given, and all others
  -- as in `s`.
  abbrev pub MapsArea : (s s' : Vmspace M) → (addr len attr flags : ℕ) → Type 0
  MapsArea s s' addr len attr flags =
      (a : ℕ)
      → lookup s'.nodes a
        ≡ (if leb addr a && ltb a (addr + len) then some (attr, flags) else lookup s.nodes a)

  -- Only the page tables and the list of nodes differ.
  abbrev pub SameLayout : (s s' : Vmspace M) → Type 0
  SameLayout s s' = s' ≡ record s { mmu = s'.mmu; nodes = s'.nodes }

  pub keep-IsValid :
      (s : Vmspace M) (m : M) (xs : List Vmnode)
      → IsValid s
      → Ordered 0 xs
      → ((a : ℕ) → s.space_top ≤ a → lookup xs a ≡ none)
      → IsValid (record s { mmu = m; nodes = xs })
  keep-IsValid s m xs v o above = record {
    ordered = o;
    below_top = last_end-le_of_lookup 0 s.space_top xs o (omega arith) above;
    aligned = v.aligned;
    small = v.small;
  }

outside_area :
    (map_start map_end free size : ℕ) (x : Vmnode)
    → map_start ≤ free
    → free % page_size ≡ 0
    → size < 2 ^ 63
    → free + page_align_up size ≤ map_end
    → x.start % page_size ≡ 0
    → x.start < x.end
    → (map_start ≤ x.start → x.end ≤ map_end → (x.end ≤ free) ⊎ (free + size ≤ x.start))
    → (x.start ≤ page_align_down free) ⊎ (page_align_down free + page_align_up size ≤ x.end)
outside_area map_start map_end free size x low al few fits page filled h =
    elim (dec_lt (page_align_down free) x.start) [
      | no below ↦ inl (omega arith)
      | yes above ↦ elim (dec_lt x.end (page_align_down free + page_align_up size)) [
        | no over ↦ inr (omega arith)
        | yes inside ↦ elim (h (omega arith) (omega arith)) [
          | inl before ↦ absurd (omega arith)
          | inr behind ↦ absurd (omega arith)
        ]
      ]
    ]

apart→NoneInside :
    (map_start map_end free size lo : ℕ) (xs : List Vmnode)
    → map_start ≤ free
    → free % page_size ≡ 0
    → size < 2 ^ 63
    → free + page_align_up size ≤ map_end
    → Ordered lo xs
    → InPages xs
    → ApartInArea map_start map_end free (free + size) xs
    → NoneInside (page_align_down free) (page_align_down free + page_align_up size) xs
apart→NoneInside map_start map_end free size lo [] low al few fits o p h = tt
apart→NoneInside map_start map_end free size lo (x ∷ xs) low al few fits o p h = (
  outside_area map_start map_end free size x low al few fits p.0 o.1 h.0,
  apart→NoneInside map_start map_end free size x.end xs low al few fits o.2 p.2 h.1,
)

module _ {M : Type 0} (ops : MmuOps M) where
  -- What the page tables did for an area and answered: nothing for a delayed mapping, or one call for just
  -- the pages of the area with the attributes given, to pages of their choice or to the physical address
  -- given, which then has one more reference.
  abbrev pub Backed : M → (addr paddr len attr flags : ℕ) → M → (mapped : ℕ) → Type 0
  Backed m addr paddr len attr flags m' mapped =
      ((delays flags ≡ true) × (m' ≡ m) × (mapped ≡ addr))
      ⊎ ((delays flags ≡ false) × (paddr ≡ 0) × ((m', mapped) ≡ ops.map_page m addr len attr))
      ⊎ ((delays flags ≡ false)
          × (paddr ≢ 0)
          × ((m', mapped)
              ≡ ops.map_page_with_phy (ops.page_increase m (page_align_down paddr)) addr paddr len
                  attr))

  -- The call came to an end with a valid space of the same layout. It mapped the area in the list of nodes
  -- and in the page tables, whose answer it returned, or it answered an error and left the list of nodes as
  -- it was, and the page tables too unless it was they that refused the area.
  abbrev pub MapOutcome : Vmspace M → (addr paddr len attr flags : ℕ) → RunMap M → Type 0
  MapOutcome s addr paddr len attr flags r =
      (s' : Vmspace M) × (err : Error) × (out : ℕ) × (r ≡ some (s', err, out))
      × IsValid s'
      × SameLayout s s'
      × (((err ≡ eok)
            × MapsArea s s' addr len attr flags
            × Backed s.mmu addr paddr len attr flags s'.mmu out)
          ⊎ ((err ≢ eok)
              × (s'.nodes ≡ s.nodes)
              × ((s'.mmu ≡ s.mmu) ⊎ Backed s.mmu addr paddr len attr flags s'.mmu 0)))

  back_pages-Backed :
      (m : M) (addr paddr len attr flags : ℕ)
      → Backed m addr paddr len attr flags
          (back_pages ops m addr paddr len attr flags).0
          (back_pages ops m addr paddr len attr flags).1
  unfolding back_pages
  back_pages-Backed m addr paddr len attr flags = elim (Bool-cases (delays flags)) [
    | inl late ↦ inl (late, rw late refl, rw late refl)
    | inr now ↦ elim (ℕ_discrete paddr 0) [
      | yes any ↦
          let b : (paddr == 0) ≡ true = ap (λ x. x == 0) any in
          inr (inl (now, any, rw now (rw b refl)))
      | no given ↦
          let b : (paddr == 0) ≡ false = ground (arith, given) in
          inr (inr (now, given, rw now (rw b refl)))
    ]
  ]

  finish_map-MapOutcome :
      (s : Vmspace M) (n : Vmnode) (paddr size : ℕ)
      → IsValid s
      → n.start < n.end
      → n.end ≤ s.space_top
      → Apart n.start n.end s.nodes
      → n.start + size ≡ n.end
      → MapOutcome s n.start paddr size n.attr n.flags
          (finish_map ops s (insert_node s.nodes n) paddr size n.attr n.flags)
  unfolding finish_map
  finish_map-MapOutcome s n paddr size v filled under apart long =
      elim (Bool-cases (mapped == 0 && not (delays n.flags))) [
        | inl failed ↦ (
          record s { mmu = m; nodes = f.before ++ f.after },
          enomem,
          0,
          rw (failed, finish_map),
          rw rest (
              keep-IsValid s m s.nodes v v.ordered
                (λ a le. lookup-above 0 a s.nodes v.ordered (omega (arith, v.below_top)))),
          refl,
          inr (
            cc,
            rest,
            inr (
                subst (λ x. Backed s.mmu n.start paddr size n.attr n.flags m x) (none_mapped failed)
                  backs),
          ),
        )
        | inr backed ↦ (
          record s { mmu = m; nodes = nodes_of g },
          eok,
          mapped,
          rw (backed, merged, finish_map),
          keep-IsValid s m (nodes_of g) v same.ordered (λ a le.
              same.alike a
              ∙ ground (arith, look a, lookup-above 0 a s.nodes v.ordered, v.below_top)),
          refl,
          inl (refl, (λ a. same.alike a ∙ look a ∙ ground (arith, long)), backs),
        )
      ]
    where
      f : Focus
      f = insert_node s.nodes n

      m : M
      m = (back_pages ops s.mmu f.node.start paddr size n.attr n.flags).0

      mapped : ℕ
      mapped = (back_pages ops s.mmu f.node.start paddr size n.attr n.flags).1

      backs : Backed s.mmu n.start paddr size n.attr n.flags m mapped
      backs =
          subst (λ x. Backed s.mmu x paddr size n.attr n.flags m mapped)
            (ap (λ x. x.start) (insert_node-node s.nodes n))
            (back_pages-Backed s.mmu f.node.start paddr size n.attr n.flags)

      none_mapped : mapped == 0 && not (delays n.flags) ≡ true → mapped ≡ 0
      none_mapped h = ground (arith, h)

      rest : f.before ++ f.after ≡ s.nodes
      rest = (insert_node-rest 0 s.nodes n v.ordered (omega arith) filled apart).0

      inserted : Ordered 0 (nodes_of f)
      inserted = (insert_node_lem 0 s.nodes n v.ordered (omega arith) filled apart).0

      look :
          (a : ℕ)
          → lookup (nodes_of f) a
            ≡ (if covers n a then some (n.attr, n.flags) else lookup s.nodes a)
      look = (insert_node_lem 0 s.nodes n v.ordered (omega arith) filled apart).1

      g : Focus
      g = (merge_node-Merged 0 f inserted).0

      merged : merge_node f ≡ some g
      merged = (merge_node-Merged 0 f inserted).1

      same : Same 0 (nodes_of f) (nodes_of g)
      same = (merge_node-Merged 0 f inserted).2

  -- Where the aligned area lies in the space and no node lies strictly inside it, the call maps
  -- exactly that area, or fails and leaves the list of nodes as it was.
  map_at-MapOutcome :
      (allocated : Bool) (s : Vmspace M) (vaddr paddr size attr flags : ℕ)
      → IsValid s
      → 0 < size
      → page_align_down vaddr + page_align_up size ≤ s.space_top
      → size < 2 ^ 63
      → NoneInside (page_align_down vaddr) (page_align_down vaddr + page_align_up size) s.nodes
      → MapOutcome s
          (page_align_down vaddr)
          paddr
          (page_align_up size)
          attr
          flags
          (map_at ops allocated s vaddr paddr size attr flags)
  unfolding map_at
  map_at-MapOutcome allocated s vaddr paddr size attr flags v pos fits few clear =
      elim (Bool-cases (collides s.nodes addr len)) [
        | inl hit ↦ (s, einval, 0, rw hit, v, refl, inr (cc, refl, inl refl))
        | inr miss ↦ elim (Bool-cases allocated) [
          | inl got ↦
              let (s', err, out, e, v', lay, what) = mapped miss in
              (s', err, out, ground (arith, miss, got, e), v', lay, what)
          | inr full ↦ (s, enomem, 0, ground (arith, miss, full), v, refl, inr (cc, refl, inl refl))
        ]
      ]
    where
      addr : ℕ
      addr = page_align_down vaddr

      len : ℕ
      len = page_align_up size

      n : Vmnode
      n = vmnode_create addr len attr flags

      filled : 0 < len
      filled = omega arith

      node_end : n.end ≡ addr + len
      node_end = omega (arith, v.small)

      apart : collides s.nodes addr len ≡ false → Apart n.start n.end s.nodes
      apart miss =
          rw node_end
            (collides-Apart 0 addr len s.nodes v.ordered (omega (arith, v.small)) filled clear miss)

      mapped :
          collides s.nodes addr len ≡ false
          → MapOutcome s addr paddr len attr flags
              (finish_map ops s (insert_node s.nodes n) paddr len attr flags)
      mapped miss =
          finish_map-MapOutcome s n paddr len v (omega (arith, node_end, filled))
            (omega (arith, node_end)) (apart miss) (omega (arith, node_end))

  -- `NX_VmspaceMap` or `NX_VmspaceMapWithPhy` at a given address in a valid space, for a size that
  -- the space can hold and an area in which no node lies strictly inside, comes to an end with a
  -- valid space. Either the list of nodes then maps exactly the aligned area with the attributes and
  -- flags given, every other address keeping its mapping, and unless the mapping is delayed the page
  -- tables were called once, for just that area, those attributes and the physical address given, if
  -- any, and their answer is returned; or it answers an error and changes no mapping, nor the page
  -- tables unless they refused the area.
  pub vmspace_map-fixed :
      (allocated : Bool) (s : Vmspace M) (vaddr paddr size attr flags : ℕ)
      → IsValid s
      → vaddr ≢ 0
      → size ≤ s.space_top
      → NoneInside (page_align_down vaddr) (page_align_down vaddr + page_align_up size) s.nodes
      → MapOutcome s
          (page_align_down vaddr)
          paddr
          (page_align_up size)
          attr
          flags
          (vmspace_map ops allocated s vaddr paddr size attr flags)
  unfolding vmspace_map
  vmspace_map-fixed allocated s vaddr paddr size attr flags v ne few clear =
      elim (Bool-cases (size == 0 || attr == 0)) [
        | inl empty ↦ (s, einval, 0, rw empty, v, refl, inr (cc, refl, inl refl))
        | inr some_size ↦
            elim (Bool-cases (ltb vaddr s.space_base || ltb (sub_word s.space_top size) vaddr)) [
              | inl outside ↦ (
                s,
                einval,
                0,
                ground (arith, some_size, outside),
                v,
                refl,
                inr (cc, refl, inl refl),
              )
              | inr inside ↦
                  let (s', err, out, e, v', lay, what) =
                    map_at-MapOutcome allocated s vaddr paddr size attr flags v (ground arith)
                      (ground (arith, v.aligned, v.small)) (omega (arith, v.small)) clear in
                  (s', err, out, ground (arith, some_size, inside, e), v', lay, what)
            ]
      ]

  map_found :
      (allocated : Bool) (s : Vmspace M) (paddr size attr flags free : ℕ)
      → IsValid s
      → s.map_end ≤ s.space_top
      → s.map_start ≤ s.map_end
      → s.map_start % page_size ≡ 0
      → 0 < size
      → size < 2 ^ 63
      → InPages s.nodes
      → free_address s.map_start s.map_end size s.nodes ≡ some free
      → free + page_align_up size ≤ s.map_end
      → MapOutcome s
          (page_align_down free)
          paddr
          (page_align_up size)
          attr
          flags
          (vmspace_map ops allocated s 0 paddr size attr flags)
  unfolding vmspace_map
  map_found allocated s paddr size attr flags free v top area start pos few pages found fits =
      elim (Bool-cases (attr == 0)) [
        | inl no_attr ↦ (s, einval, 0, ground (arith, no_attr), v, refl, inr (cc, refl, inl refl))
        | inr with_attr ↦
            let (s', err, out, e, v', lay, what) =
              map_at-MapOutcome allocated s free paddr size attr flags v pos
                (omega (arith, at_page, v.small)) few clear in
            (s', err, out, ground (arith, with_attr, found, e), v', lay, what)
      ]
    where
      at_page : free % page_size ≡ 0
      at_page = free_address-aligned s.map_start s.map_end size free s.nodes pages start found

      clear : NoneInside (page_align_down free) (page_align_down free + page_align_up size) s.nodes
      clear =
          let (low, apart) =
            free_address-ApartInArea s.map_start s.map_end size 0 free s.nodes v.ordered area
              (omega (arith, v.small)) found in
          apart→NoneInside s.map_start s.map_end free size 0 s.nodes low at_page few fits v.ordered
            pages apart

  -- With address 0, `NX_VmspaceMap` of a size that is not 0 asks
  -- `GetAddrFromMapArea` for an address, in a valid space with the nodes and the start of the map area at page
  -- addresses and the map area in order below the top. When none is
  -- found it answers an error and changes nothing. When one is found, either the pages at it leave the
  -- map area, which the code does not check, or the call maps just those pages with the attributes
  -- and flags given, in the list of nodes and, unless delayed, by one call of the page tables whose
  -- answer it returns; or it answers an error, every address keeps its mapping and the page tables are
  -- as before unless they refused the area. No node has to be excluded.
  pub vmspace_map-anywhere :
      (allocated : Bool) (s : Vmspace M) (paddr size attr flags : ℕ)
      → IsValid s
      → s.map_end ≤ s.space_top
      → s.map_start ≤ s.map_end
      → s.map_start % page_size ≡ 0
      → 0 < size
      → size < 2 ^ 63
      → InPages s.nodes
      → ((err : Error) × (free_address s.map_start s.map_end size s.nodes ≡ none)
          × (err ≢ eok)
          × (vmspace_map ops allocated s 0 paddr size attr flags ≡ some (s, err, 0)))
        ⊎ ((free : ℕ) × (free_address s.map_start s.map_end size s.nodes ≡ some free)
            × ((s.map_end < free + page_align_up size)
                ⊎ MapOutcome s
                    (page_align_down free)
                    paddr
                    (page_align_up size)
                    attr
                    flags
                    (vmspace_map ops allocated s 0 paddr size attr flags)))
  unfolding vmspace_map
  vmspace_map-anywhere allocated s paddr size attr flags v top area start pos few pages =
      elim (Option-cases (free_address s.map_start s.map_end size s.nodes)) [
        | inl full ↦ elim (Bool-cases (attr == 0)) [
          | inl no_attr ↦ inl (einval, full, cc, ground (arith, no_attr))
          | inr with_attr ↦ inl (enomem, full, cc, ground (arith, with_attr, full, pos))
        ]
        | inr (free, found) ↦ elim (dec_lt s.map_end (free + page_align_up size)) [
          | yes leaves ↦ inr (free, found, inl leaves)
          | no fits ↦ inr (
            free,
            found,
            inr (
                map_found allocated s paddr size attr flags free v top area start pos few pages
                  found (omega (arith, fits))),
          )
        ]
      ]
