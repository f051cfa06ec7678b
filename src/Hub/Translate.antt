-- ===== src/Hub/Translate.antt =====
-- `NX_HubTranslate` of src/ipc/hub/hub.c with the memory description lists: how a server maps memory of
-- the client whose call it handles. The two address spaces are an interface: the physical address of a
-- page of the client, 0 when there is none, and mapping and unmapping in the server's space.
pub mod Pages
pub mod Outcome
use nxos.Base.{
  ℕ, zero, suc, ◌+◌, ◌-◌, ◌*◌, ◌/◌, ◌%◌, ◌≤◌, ◌<◌, ◌≡◌, ◌≢◌, refl, ◌⊎◌, inl, inr, Bool, true, false,
  ◌&&◌, ◌||◌, not, Option, none, some, List, [], ◌∷◌, ltb, leb, ◌==◌, arith, if◌then◌else◌, length,
  page_size, page_align_down, Bool-cases, Option-cases, ℕ_discrete, ap, sym, subst, ◌∙◌,
}
use nxos.Hub.{Channel}
use nxos.Hub.Serve.{is_thread}

-- `NX_HubMdl`, without the space that it is mapped in.
pub record Mdl : Type 0 where
  pub start_addr : ℕ
  pub mapped_addr : ℕ
  pub byte_offset : ℕ
  pub byte_count : ℕ

-- NX_HUB_MDL_LEN_MAX
abbrev pub mdl_len_max : ℕ
mdl_len_max = 32 * 1024 * 1024

-- NX_HUB_PARAM_NR
abbrev pub param_nr : ℕ
param_nr = 8

-- `CreateMdl`, when there is memory for it.
unfoldable pub create_mdl : (addr len : ℕ) → Mdl
create_mdl addr len = record {
  start_addr = page_align_down addr;
  mapped_addr = 0;
  byte_offset = addr - page_align_down addr;
  byte_count = if ltb mdl_len_max len then mdl_len_max else len;
}

-- The count of pages in `MapMdl` and `UnmapMdl`.
abbrev pub page_count : Mdl → ℕ
page_count mdl = (mdl.byte_offset + mdl.byte_count + page_size - 1) / page_size

-- `ChannelMatchParam`
abbrev pub match_param : ℕ → List ℕ → Bool
match_param arg [] = false
match_param arg (a ∷ as') = arg == a || match_param arg as'

-- Whether the channel has a source thread.
abbrev pub has_source : Option ℕ → Bool
has_source none = false
has_source (some t) = true

-- What the mapping needs of the two address spaces.
pub record Spaces (S : Type 0) : Type 0 where
  pub vir_to_phy : (virtual : ℕ) → ℕ
  pub map_page : S → (physical : ℕ) → Option (ℕ × S)
  pub unmap : S → (addr len : ℕ) → S

module _ {S : Type 0} (spaces : Spaces S) where
  -- The first loop of `MapMdl`: each page of the client has a physical address.
  unfoldable pub pages_valid : (virtual n : ℕ) → Bool
  pages_valid virtual zero = true
  pages_valid virtual (suc n) =
      not (spaces.vir_to_phy virtual == 0) && pages_valid (virtual + page_size) n

  -- The second loop of `MapMdl`, with the pages mapped so far; the space after it, and whether every
  -- page was mapped.
  unfoldable pub map_pages : (mdl : Mdl) → S → (virtual n done mapped : ℕ) → S × Option ℕ
  map_pages mdl s virtual zero done mapped = (s, some mapped)
  map_pages mdl s virtual (suc n) done mapped =
      elim (spaces.map_page s (spaces.vir_to_phy virtual)) [
        | none ↦ (if ltb 0 done then spaces.unmap s mdl.start_addr (done * page_size) else s, none)
        | some r ↦
            map_pages mdl r.1 (virtual + page_size) n (done + 1)
              (if mapped == 0 then r.0 else mapped)
      ]

  -- `MapMdl`
  unfoldable pub map_mdl : Mdl → S → S × Option ℕ
  unfolding pages_valid map_pages
  map_mdl mdl s =
      if pages_valid mdl.start_addr (page_count mdl)
      then map_pages mdl s mdl.start_addr (page_count mdl) 0 mdl.mapped_addr
      else (s, none)

  -- The end of `NX_HubMapAddr`: the list of descriptions, the space, and the address for the server.
  unfoldable pub keep_mdl : List Mdl → Mdl → S × Option ℕ → List Mdl × S × Option ℕ
  keep_mdl mdls mdl (s, none) = (mdls, s, none)
  keep_mdl mdls mdl (s, some mapped) =
      (record mdl { mapped_addr = mapped } ∷ mdls, s, some (mapped + mdl.byte_offset))

  -- `NX_HubMapAddr` of threads that are in processes, with memory for a description.
  unfoldable pub map_addr : List Mdl → S → (addr size : ℕ) → List Mdl × S × Option ℕ
  unfolding map_mdl keep_mdl create_mdl
  map_addr mdls s addr size =
      if leb param_nr (length mdls)
      then (mdls, s, none)
      else (keep_mdl mdls (create_mdl addr size) (map_mdl (create_mdl addr size) s))

  -- `NX_HubTranslate` by a thread on the channel that it handles, if any.
  unfoldable pub translate :
      Option Channel → List Mdl → S → (thread addr size : ℕ) → List Mdl × S × Option ℕ
  unfolding map_addr
  translate none mdls s thread addr size = (mdls, s, none)
  translate (some c) mdls s thread addr size =
      if not (addr == 0 || size == 0)
        && (is_thread thread c.target_thread
            && (has_source c.source_thread && match_param addr c.param.args))
      then map_addr mdls s addr size
      else (mdls, s, none)
