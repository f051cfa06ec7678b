-- ===== src/Hub/Translate/Pages.antt =====
-- The pages of the client that `MapMdl` of src/ipc/hub/hub.c maps for a server.
use nxos.Base.{
  ℕ, zero, suc, ◌+◌, ◌*◌, ◌%◌, ◌≤◌, ◌<◌, ◌≡◌, ◌≢◌, refl, inl, inr, Bool, true, false, Option, none,
  some, List, [], ◌∷◌, ltb, ◌==◌, arith, if◌then◌else◌, page_size, Option-cases, ℕ_discrete, ap,
  sym, subst, ◌∙◌,
}
use nxos.Hub.Translate.{Mdl, create_mdl, page_count, Spaces, pages_valid, map_pages}

-- The pages of a description cover the bytes asked for, up to the largest length, and begin at the page of
-- their first one.
pub create_mdl-covers :
    (addr len : ℕ)
    → let mdl = create_mdl addr len in
      (mdl.start_addr % page_size ≡ 0)
      × (mdl.start_addr + mdl.byte_offset ≡ addr)
      × (addr + mdl.byte_count ≤ mdl.start_addr + page_count mdl * page_size)
      × (mdl.start_addr + page_count mdl * page_size < addr + mdl.byte_count + page_size)
unfolding create_mdl
create_mdl-covers addr len = (omega arith, omega arith, ground arith, ground arith)

module _ {S : Type 0} (spaces : Spaces S) where
  -- A run of `n` pages of the client, from an address on, mapped one after the other into the server's
  -- space, each at its physical address, with the addresses that the server gets for them.
  pub data Mapped : (virtual n : ℕ) → S → S → List ℕ → Type 0 where
    no_page : {virtual : ℕ} {s : S} → Mapped virtual 0 s s []
    page :
        {virtual n at : ℕ} {s s' s'' : S} {ats : List ℕ}
        → spaces.vir_to_phy virtual ≢ 0
        → spaces.map_page s (spaces.vir_to_phy virtual) ≡ some (at, s')
        → Mapped (virtual + page_size) n s' s'' ats
        → Mapped virtual (suc n) s s'' (at ∷ ats)

  -- What the address that the server gets has to do with the pages mapped.
  abbrev pub Starts : (mapped : ℕ) → List ℕ → ℕ → Type 0
  Starts mapped ats q =
      (mapped ≢ 0 → q ≡ mapped)
      × ((a : ℕ) (as' : List ℕ) → ats ≡ a ∷ as' → mapped ≡ 0 → a ≢ 0 → q ≡ a)

  pub map_pages-Mapped :
      (mdl : Mdl) (s s' : S) (virtual n done mapped q : ℕ)
      → pages_valid spaces virtual n ≡ true
      → map_pages spaces mdl s virtual n done mapped ≡ (s', some q)
      → (ats : List ℕ) × Mapped virtual n s s' ats × Starts mapped ats q
  unfolding pages_valid map_pages
  map_pages-Mapped mdl s s' virtual zero done mapped q valid e = (
    [],
    subst (λ x. Mapped virtual 0 s x []) (ap (λ r. r.0) e) no_page,
    ((λ ne. ground (arith, e)), λ a as' is. absurd (ground (arith, is))),
  )
  map_pages-Mapped mdl s s' virtual (suc n) done mapped q valid e =
      elim (Option-cases (spaces.map_page s (spaces.vir_to_phy virtual))) [
        | inl none_given ↦ absurd (failed (ltb 0 done) (sym (ap after none_given) ∙ e))
        | inr ((at, s1), given) ↦
            let mapped' : ℕ = if mapped == 0 then at else mapped in
            let (ats, run, (starts, _)) =
              map_pages-Mapped mdl s1 s' (virtual + page_size) n (done + 1) mapped' q
                (ground (arith, valid)) (sym (ap after given) ∙ e) in
            (
              at ∷ ats,
              page (ground (arith, valid)) given run,
              (
                (λ ne. starts (ground (arith, ne)) ∙ ground (arith, ne)),
                λ a as' is none_yet ne.
                    let same : at ≡ a = ground (arith, is) in
                    starts (ground (arith, none_yet, ne, same)) ∙ ground (arith, none_yet, same),
              ),
            )
      ]
    where
      after : Option (ℕ × S) → S × Option ℕ
      after o = elim o [
        | none ↦ (if ltb 0 done then spaces.unmap s mdl.start_addr (done * page_size) else s, none)
        | some r ↦
            map_pages spaces mdl r.1 (virtual + page_size) n (done + 1)
              (if mapped == 0 then r.0 else mapped)
      ]

      failed :
          (b : Bool)
          → ¬ (
              ◌≡◌ {A = S × Option ℕ}
                (if b then spaces.unmap s mdl.start_addr (done * page_size) else s, none)
                (s', some q))
      failed b bad = ground (arith, ap (λ r. r.1) bad)

  pub Mapped-first :
      {virtual n : ℕ} {s s' : S} {ats : List ℕ}
      → Mapped virtual n s s' ats
      → 0 < n
      → (a : ℕ) × (as' : List ℕ) × (ats ≡ a ∷ as')
  Mapped-first no_page pos = absurd (omega arith)
  Mapped-first (page {at = a} {ats = as'} p m rest) pos = (a, as', refl)

  -- A page of a run of `n` pages, behind `done` ones that have been mapped, cannot be mapped.
  pub record Unmappable (virtual n : ℕ) (s : S) : Type 0 where
    pub done : ℕ
    pub before_end : done < n
    pub space : S
    pub ats : List ℕ
    pub mapped : Mapped virtual done s space ats
    pub refused : spaces.map_page space (spaces.vir_to_phy (virtual + done * page_size)) ≡ none

  pub map_pages-Unmappable :
      (mdl : Mdl) (s s' : S) (virtual n done mapped : ℕ)
      → pages_valid spaces virtual n ≡ true
      → map_pages spaces mdl s virtual n done mapped ≡ (s', none)
      → Unmappable virtual n s
  unfolding pages_valid map_pages
  map_pages-Unmappable mdl s s' virtual zero done mapped valid e = absurd (ground (arith, e))
  map_pages-Unmappable mdl s s' virtual (suc n) done mapped valid e =
      elim (Option-cases (spaces.map_page s (spaces.vir_to_phy virtual))) [
        | inl none_given ↦ record {
          done = 0;
          before_end = omega arith;
          space = s;
          ats = [];
          mapped = no_page;
          refused =
              ap (λ v. spaces.map_page s (spaces.vir_to_phy v)) {x = virtual + 0 * page_size}
                {y = virtual} (omega arith)
              ∙ none_given;
        }
        | inr ((at, s1), given) ↦
            let u =
              map_pages-Unmappable mdl s1 s' (virtual + page_size) n (done + 1)
                (if mapped == 0 then at else mapped) (ground (arith, valid))
                (sym (
                    ap
                      (λ o. elim o as (λ x. S × Option ℕ) [
                        | none ↦ (
                          if ltb 0 done
                              then spaces.unmap s mdl.start_addr (done * page_size)
                              else s,
                          none,
                        )
                        | some r ↦
                            map_pages spaces mdl r.1 (virtual + page_size) n (done + 1)
                              (if mapped == 0 then r.0 else mapped)
                      ])
                      given)
                  ∙ e) in
            record {
              done = suc u.done;
              before_end = omega (arith, u.before_end);
              space = u.space;
              ats = at ∷ u.ats;
              mapped = page (ground (arith, valid)) given u.mapped;
              refused =
                  ap (λ v. spaces.map_page u.space (spaces.vir_to_phy v))
                    {x = virtual + suc u.done * page_size}
                    {y = virtual + page_size + u.done * page_size} (omega arith)
                  ∙ u.refused;
            }
      ]

  -- A page of a run of `n` pages has no physical address.
  abbrev pub Unbacked : (virtual n : ℕ) → Type 0
  Unbacked virtual n = (k : ℕ) × (k < n) × (spaces.vir_to_phy (virtual + k * page_size) ≡ 0)

  pub pages_valid-Unbacked :
      (virtual n : ℕ) → pages_valid spaces virtual n ≡ false → Unbacked virtual n
  unfolding pages_valid
  pages_valid-Unbacked virtual zero e = absurd (ground (arith, e))
  pages_valid-Unbacked virtual (suc n) e = elim (ℕ_discrete (spaces.vir_to_phy virtual) 0) [
    | yes null ↦ (
      0,
      omega arith,
      ap spaces.vir_to_phy {x = virtual + 0 * page_size} {y = virtual} (omega arith) ∙ null,
    )
    | no some_page ↦
        let (k, lt, null) =
          pages_valid-Unbacked (virtual + page_size) n (ground (arith, e, some_page)) in
        (
          suc k,
          omega (arith, lt),
          ap spaces.vir_to_phy {x = virtual + suc k * page_size}
                {y = virtual + page_size + k * page_size} (omega arith)
              ∙ null,
        )
  ]
