-- ===== src/Hub/Translate/Outcome.antt =====
-- What `NX_HubTranslate` of src/ipc/hub/hub.c comes to.
use nxos.Base.{
  ℕ, ◌+◌, ◌-◌, ◌*◌, ◌%◌, ◌≤◌, ◌<◌, ◌≡◌, ◌≢◌, ◌⊎◌, true, Option, none, some, List, ◌∷◌, ltb,
  if◌then◌else◌, length, page_size,
}
use nxos.Hub.{Channel}
use nxos.Hub.Translate.{
  Mdl, mdl_len_max, param_nr, create_mdl, page_count, match_param, has_source, Spaces,
}
use nxos.Hub.Translate.Pages.{Mapped, Unmappable, Unbacked}

module _ {S : Type 0} (spaces : Spaces S) where
  -- The server handles the call, and the address is one of the call's parameters; there are fewer than eight
  -- descriptions.
  pub record Allowed (c : Channel) (mdls : List Mdl) (thread addr size : ℕ) : Type 0 where
    pub handles : c.target_thread ≡ some thread
    pub is_param : match_param addr c.param.args ≡ true
    pub room : length mdls < param_nr
    pub not_null : addr ≢ 0
    pub not_empty : size ≢ 0
    pub is_called : has_source c.source_thread ≡ true

  -- The pages cannot all be mapped: one has no physical address, and the space is as it was, or the mapping of
  -- one is refused.
  abbrev pub Untranslated : S → (addr size : ℕ) → S → Type 0
  Untranslated s addr size s' =
      let mdl = create_mdl addr size in
      ((s' ≡ s) × Unbacked spaces mdl.start_addr (page_count mdl))
      ⊎ Unmappable spaces mdl.start_addr (page_count mdl) s

  -- The pages that hold the bytes asked for, up to the largest length, are mapped in order into the server's
  -- space, and the address that the server gets is as far into the first page mapped, if that has an address
  -- that is not 0, as the address asked for is into its page.
  pub record Translated (mdls : List Mdl) (s : S) (addr size : ℕ) (mdls' : List Mdl) (s' : S)
      (got : ℕ) : Type 0 where
    pub mdl : Mdl
    pub ats : List ℕ
    pub listed : mdls' ≡ mdl ∷ mdls
    pub aligned : mdl.start_addr % page_size ≡ 0
    pub starts : mdl.start_addr + mdl.byte_offset ≡ addr
    pub bytes : mdl.byte_count ≡ (if ltb mdl_len_max size then mdl_len_max else size)
    pub covers : addr + mdl.byte_count ≤ mdl.start_addr + page_count mdl * page_size
    pub within : mdl.start_addr + page_count mdl * page_size < addr + mdl.byte_count + page_size
    pub mapped : Mapped spaces mdl.start_addr (page_count mdl) s s' ats
    pub first : ℕ
    pub rest : List ℕ
    pub is_first : ats ≡ first ∷ rest
    pub at_first : (first ≡ 0) ⊎ (got ≡ first + (addr - mdl.start_addr))

  abbrev pub TranslateOutcome :
      Channel → List Mdl → S → (thread addr size : ℕ) → List Mdl × S × Option ℕ → Type 0
  TranslateOutcome c mdls s thread addr size r =
      ((r ≡ (mdls, s, none)) × (¬ (Allowed c mdls thread addr size)))
      ⊎ (Allowed c mdls thread addr size
          × (((s' : S) × (r ≡ (mdls, s', none)) × Untranslated s addr size s')
              ⊎ ((mdls' : List Mdl) × (s' : S) × (got : ℕ) × (r ≡ (mdls', s', some got))
                  × Translated mdls s addr size mdls' s' got)))
