-- ===== src/Hub/Signals.antt =====
-- The semaphores on which the clients of a hub of src/ipc/hub/hub.c wait: `syncSem` of each channel.
use nxos.Base.{
  ℕ, ◌+◌, ◌-◌, ◌≡◌, refl, subst, ◌∙◌, ap, inl, inr, Bool, Option, none, some, List, [], ◌∷◌, arith,
  ltb, ◌==◌, Bool-cases, ℕ_discrete,
}
use nxos.Semaphore.{Semaphore, semaphore_magic, wait, wait_round, taken, signal, signal_body}
use nxos.Hub.{
  Param, Channel, ChannelState, ready, active, channel_init, Hub, find_channel, turn_first, is_idle,
  add_channel, update, pick_channel, try_add, or_add, get_free_channel, migrate_to_server, migrate,
  call_begin,
}
use nxos.Hub.Serve.{signalled}

-- The semaphore of every channel has been initialised.
abbrev pub HasSemaphores : List Channel → Type 0
HasSemaphores [] = Unit
HasSemaphores (c ∷ cs) = (c.sync_sem.magic ≡ semaphore_magic) × HasSemaphores cs

pub find_channel-HasSemaphores :
    (a : ℕ) (cs : List Channel) (c : Channel)
    → HasSemaphores cs
    → find_channel a cs ≡ some c
    → c.sync_sem.magic ≡ semaphore_magic
find_channel-HasSemaphores a [] c all h = absurd (ground arith)
find_channel-HasSemaphores a (d ∷ cs) c all h = elim (ℕ_discrete d.addr a) [
  | yes e ↦
      let same : d ≡ c = ground (arith, h, e) in
      ground (arith, all.0, ap (λ o. o.sync_sem.magic) same)
  | no ne ↦ find_channel-HasSemaphores a cs c all.1 (ground (arith, h, ne))
]

update-HasSemaphores :
    (a : ℕ) (f : Channel → Channel) (cs : List Channel)
    → ((c : Channel) → (f c).sync_sem.magic ≡ c.sync_sem.magic)
    → HasSemaphores cs
    → HasSemaphores (update a f cs)
update-HasSemaphores a f [] keeps all = tt
update-HasSemaphores a f (c ∷ cs) keeps all = elim (Bool-cases (c.addr == a)) [
  | inl e ↦ rw e (keeps c ∙ all.0, all.1)
  | inr e ↦ rw e (all.0, update-HasSemaphores a f cs keeps all.1)
]

turn_first-HasSemaphores :
    (test : ChannelState → Bool) (new : ChannelState) (cs : List Channel)
    → HasSemaphores cs
    → HasSemaphores (turn_first test new cs).0
turn_first-HasSemaphores test new [] all = tt
turn_first-HasSemaphores test new (c ∷ cs) all = elim (Bool-cases (test c.state)) [
  | inl e ↦ rw e all
  | inr e ↦ rw e (all.0, turn_first-HasSemaphores test new cs all.1)
]

or_add-HasSemaphores :
    (hub : Hub) (fresh : Option ℕ) (client : ℕ) (r : List Channel × Option ℕ)
    → HasSemaphores hub.channels
    → HasSemaphores r.0
    → HasSemaphores (or_add fresh client hub (record hub { channels = r.0 }, r.1)).0.channels
unfolding or_add try_add add_channel pick_channel
or_add-HasSemaphores hub fresh client (cs, some addr) all turned =
    update-HasSemaphores addr (λ c. record c { source_thread = some client }) cs (λ c. refl) turned
or_add-HasSemaphores hub none client (cs, none) all turned = all
or_add-HasSemaphores hub (some addr) client (cs, none) all turned =
    elim (Bool-cases (ltb hub.total_channels hub.max_client)) [
      | inl room ↦ rw room (new)
      | inr full ↦ rw full all
    ]
  where
    new : HasSemaphores (
        update addr
          (λ c. record c { source_thread = some client })
          (record (channel_init addr) { state = ready } ∷ hub.channels))
    new =
        update-HasSemaphores addr (λ c. record c { source_thread = some client })
          (record (channel_init addr) { state = ready } ∷ hub.channels) (λ c. refl) (refl, all)

pub call_begin-HasSemaphores :
    (hub hub' : Hub) (fresh : Option ℕ) (client : ℕ) (param : Param) (addr : ℕ)
    → HasSemaphores hub.channels
    → call_begin hub fresh client param ≡ (hub', some addr)
    → HasSemaphores hub'.channels
unfolding call_begin migrate migrate_to_server get_free_channel pick_channel
call_begin-HasSemaphores hub hub' fresh client param addr all h =
    subst (λ r. HasSemaphores r.0.channels) h (migrated (get_free_channel hub fresh client) got)
  where
    got : HasSemaphores (get_free_channel hub fresh client).0.channels
    got =
        or_add-HasSemaphores hub fresh client (turn_first is_idle ready hub.channels) all
          (turn_first-HasSemaphores is_idle ready hub.channels all)

    migrated :
        (r : Hub × Option ℕ)
        → HasSemaphores r.0.channels
        → HasSemaphores (migrate param r).0.channels
    migrated (h1, none) ok = ok
    migrated (h1, some a) ok =
        update-HasSemaphores a (λ c. record c { param = param; state = active }) h1.channels
          (λ c. refl) ok

-- A wait after a signal takes the value.
pub wait-signalled :
    (sem : Semaphore) (t : ℕ)
    → sem.magic ≡ semaphore_magic
    → (sem' : Semaphore) × (wait (some (signalled sem)) t ≡ (some sem', taken))
unfolding wait wait_round signalled signal signal_body
wait-signalled sem t e = by_list sem.value sem.wait_list sem.magic e
  where
    by_list :
        (v : ℕ) (l : List ℕ) (m : ℕ)
        → m ≡ semaphore_magic
        → (sem' : Semaphore) × (wait
              (some (signalled (record { value = v; wait_list = l; magic = m })))
              t
            ≡ (some sem', taken))
    by_list v [] m e = (record { value = v + 1 - 1; wait_list = []; magic = m }, ground (arith, e))
    by_list v (u ∷ us) m e =
        (record { value = v + 1 - 1; wait_list = us; magic = m }, ground (arith, e))
