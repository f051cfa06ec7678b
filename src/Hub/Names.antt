-- ===== src/Hub/Names.antt =====
-- The names of hubs in src/ipc/hub/hub.c: `SearchHub`, `NX_HubRegister` and `NX_HubUnregister`. A name
-- is its characters without the end; `NX_StrCmpN` compares the first NX_HUB_NAME_LEN of them. The hub of
-- the calling thread is an argument, and a null pointer is `none`.
use nxos.Base.{
  ℕ, ◌-◌, ◌≡◌, refl, ap, ◌∙◌, Bool, true, false, ◌&&◌, Option, none, some, List, [], ◌∷◌, arith,
  ltb, ◌==◌, if◌then◌else◌, take, word, Error, eok, einval, ebusy, enomem, enosrch, enores,
}
use nxos.Hub.{Hub, hub_init}

abbrev pub hub_name_len : ℕ
hub_name_len = 32

-- NX_HUB_CLIENTS_MAX
abbrev pub hub_clients_max : ℕ
hub_clients_max = word - 1

-- A hub in the list of all hubs, with its address.
pub record Entry : Type 0 where
  pub addr : ℕ
  pub hub : Hub

abbrev pub same_chars : List ℕ → List ℕ → Bool
same_chars [] [] = true
same_chars (x ∷ xs) (y ∷ ys) = x == y && same_chars xs ys
same_chars _ _ = false

abbrev pub same_name : List ℕ → List ℕ → Bool
same_name a b = same_chars (take hub_name_len a) (take hub_name_len b)

-- `SearchHub`
abbrev pub search_hub : List Entry → List ℕ → Option Entry
search_hub [] name = none
search_hub (e ∷ es) name = if same_name e.hub.name name then some e else search_hub es name

-- `CreateHub` of an address from the allocator, and the rest of `NX_HubRegister`.
abbrev pub add_hub :
    List Entry → (own : Option ℕ) → List ℕ → ℕ → Option ℕ → List Entry × Option ℕ × Error
add_hub hubs own name max_client none = (hubs, own, enomem)
add_hub hubs own name max_client (some addr) =
    (record { addr = addr; hub = hub_init name max_client } ∷ hubs, some addr, eok)

abbrev pub add_unless :
    List Entry
    → (own : Option ℕ) → List ℕ
    → ℕ
    → Option ℕ
    → Option Entry
    → List Entry × Option ℕ × Error
add_unless hubs own name max_client fresh (some e) = (hubs, own, ebusy)
add_unless hubs own name max_client fresh none = add_hub hubs own name max_client fresh

-- `NX_HubRegister`
unfoldable pub register :
    List Entry
    → (own : Option ℕ) → Option (List ℕ)
    → (max_client : ℕ) → (fresh : Option ℕ) → List Entry × Option ℕ × Error
register hubs own none max_client fresh = (hubs, own, einval)
register hubs own (some name) max_client fresh =
    add_unless hubs own name (if max_client == 0 then hub_clients_max else max_client) fresh
      (search_hub hubs name)

abbrev pub remove_hub : ℕ → List Entry → List Entry
remove_hub addr [] = []
remove_hub addr (e ∷ es) = if e.addr == addr then es else e ∷ remove_hub addr es

abbrev pub is_own : Option ℕ → ℕ → Bool
is_own none addr = false
is_own (some own) addr = own == addr

abbrev pub remove_found :
    List Entry → (own : Option ℕ) → Option Entry → List Entry × Option ℕ × Error
remove_found hubs own none = (hubs, own, enosrch)
remove_found hubs own (some e) =
    if is_own own e.addr
    then (if ltb 0 e.hub.total_channels
        then (hubs, own, ebusy)
        else (remove_hub e.addr hubs, none, eok))
    else (hubs, own, enores)

-- `NX_HubUnregister`
unfoldable pub unregister :
    List Entry → (own : Option ℕ) → Option (List ℕ) → List Entry × Option ℕ × Error
unregister hubs own none = (hubs, own, einval)
unregister hubs own (some name) = remove_found hubs own (search_hub hubs name)

same_chars_refl : (a : List ℕ) → same_chars a a ≡ true
same_chars_refl [] = refl
same_chars_refl (x ∷ xs) = ground (arith, same_chars_refl xs)

-- Registering a name for which there is no hub, with memory for one, makes `SearchHub` find the new hub
-- and gives it to the thread, and changes what it finds for no other name; unregistering the name by the
-- same thread then restores the list of hubs and leaves the thread without a hub.
pub register-unregister :
    (hubs : List Entry) (own : Option ℕ) (name : List ℕ) (max_client addr : ℕ)
    → search_hub hubs name ≡ none
    → (hubs' : List Entry) × (e : Entry) × (register hubs own (some name) max_client (some addr)
        ≡ (hubs', some addr, eok))
      × (search_hub hubs' name ≡ some e)
      × (e.addr ≡ addr)
      × ((other : List ℕ)
          → same_name name other ≡ false
          → search_hub hubs' other ≡ search_hub hubs other)
      × (unregister hubs' (some addr) (some name) ≡ (hubs, none, eok))
unfolding register unregister
register-unregister hubs own name max_client addr absent =
    let n = if max_client == 0 then hub_clients_max else max_client in
    let e : Entry = record { addr = addr; hub = hub_init name n } in
    let same = same_chars_refl (take hub_name_len name) in
    (
      e ∷ hubs,
      e,
      ap (add_unless hubs own name n (some addr)) absent,
      ground (arith, same),
      refl,
      λ other ne. ground (arith, ne),
      ap (remove_found (e ∷ hubs) (some addr))
            (ap (λ b. if b then some e else search_hub hubs name) same)
          ∙ ground arith,
    )
