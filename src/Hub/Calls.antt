-- ===== src/Hub/Calls.antt =====
-- `GetFreeChannel` and `NX_HubCallParam` of src/ipc/hub/hub.c up to the wait for the server.
use nxos.Base.{
  ℕ, ◌+◌, ◌≤◌, ◌<◌, ◌≡◌, ◌≢◌, refl, ap, subst, ◌∙◌, ◌⊎◌, inl, inr, Option, none, some, List, [],
  ◌∷◌, arith, ltb, length, ℕ_discrete, Bool-cases,
}
use nxos.Hub.{
  Param, Channel, ChannelState, idle, ready, active, Hub, find_channel, turn_first, is_idle,
  channel_init, add_channel, pick_channel, try_add, or_add, get_free_channel, migrate_to_server,
  migrate, call_begin, write_channel,
}
use nxos.Hub.Channels.{
  count_addr, Unique, NoneIn, Turned, update-find_self, update-find_other, update-count,
  update-length, pick_loop-LoopOutcome,
}

-- The count of channels is right and within the limit, and the addresses are distinct.
pub record IsSound (hub : Hub) : Type 0 where
  pub counted : hub.total_channels ≡ length hub.channels
  pub bounded : hub.total_channels ≤ hub.max_client
  pub unique : Unique hub.channels

-- The allocator gives no address that is in use.
abbrev pub IsFresh : Hub → Option ℕ → Type 0
IsFresh hub fresh = (a : ℕ) → fresh ≡ some a → count_addr a hub.channels ≡ 0

-- The channel belongs to the client, and no other channel changed.
pub record Claimed (hub : Hub) (fresh : Option ℕ) (client : ℕ) (hub' : Hub) (addr : ℕ)
    : Type 0 where
  pub sound : IsSound hub'
  pub channel : Channel
  pub at : find_channel addr hub'.channels ≡ some channel
  pub is_ready : channel.state ≡ ready
  pub is_source : channel.source_thread ≡ some client
  pub others : (b : ℕ) → b ≢ addr → find_channel b hub'.channels ≡ find_channel b hub.channels
  pub was_free :
      ((c : Channel) × (find_channel addr hub.channels ≡ some c) × (c.state ≡ idle))
      ⊎ ((fresh ≡ some addr) × NoneIn idle hub.channels)

abbrev pub GetOutcome : Hub → (fresh : Option ℕ) → (client : ℕ) → Hub × Option ℕ → Type 0
GetOutcome hub fresh client r =
    ((r ≡ (hub, none))
      × NoneIn idle hub.channels
      × ((fresh ≡ none) ⊎ (hub.max_client ≤ hub.total_channels)))
    ⊎ ((hub' : Hub) × (addr : ℕ) × (r ≡ (hub', some addr)) × Claimed hub fresh client hub' addr)

picked-Claimed :
    (hub : Hub) (fresh : Option ℕ) (client addr : ℕ) (cs : List Channel)
    → IsSound hub
    → Turned idle ready hub.channels addr cs
    → Claimed hub fresh client
        (write_channel
          (record hub { channels = cs })
          addr
          (λ c. record c { source_thread = some client }))
        addr
picked-Claimed hub fresh client addr cs sound k =
    let f : Channel → Channel = λ c. record c { source_thread = some client } in
    record {
      sound = record {
        counted = omega (arith, sound.counted, k.lengths, update-length addr f (λ c. refl) cs);
        bounded = sound.bounded;
        unique =
            λ b. omega (arith, sound.unique b, k.counts b, update-count addr f (λ c. refl) cs b);
      };
      channel = f (record k.chosen { state = ready });
      at = update-find_self addr f (λ c. refl) cs (record k.chosen { state = ready }) k.after;
      is_ready = refl;
      is_source = refl;
      others = λ b ne. update-find_other addr f (λ c. refl) cs b ne ∙ k.others b ne;
      was_free = inl (k.chosen, k.before, k.was_state);
    }

added-Claimed :
    (hub : Hub) (client addr : ℕ)
    → IsSound hub
    → count_addr addr hub.channels ≡ 0
    → NoneIn idle hub.channels
    → hub.total_channels < hub.max_client
    → Claimed hub
        (some addr)
        client
        (record hub {
          channels =
              record (channel_init addr) { state = ready; source_thread = some client }
              ∷ hub.channels;
          total_channels = hub.total_channels + 1;
        })
        addr
added-Claimed hub client addr sound unused none_idle room = record {
  sound = record {
    counted = omega (arith, sound.counted);
    bounded = omega (arith, room);
    unique = λ b. elim (ℕ_discrete addr b) [
      | yes e ↦ ground (arith, subst (λ a. count_addr a hub.channels ≡ 0) e unused)
      | no ne ↦ ground (arith, sound.unique b)
    ];
  };
  channel = record (channel_init addr) { state = ready; source_thread = some client };
  at = ground arith;
  is_ready = refl;
  is_source = refl;
  others = λ b ne. ground arith;
  was_free = inr (refl, none_idle);
}

-- `GetFreeChannel` of a hub in order gives the client a channel of its own, which was idle or is a new
-- one, changes no other channel and keeps the number of channels within the limit; or it gives none and
-- changes nothing, only when no channel is idle and there is no memory or the limit is reached.
pub get_free_channel-GetOutcome :
    (hub : Hub) (fresh : Option ℕ) (client : ℕ)
    → IsSound hub
    → IsFresh hub fresh
    → GetOutcome hub fresh client (get_free_channel hub fresh client)
unfolding get_free_channel pick_channel or_add try_add add_channel
get_free_channel-GetOutcome hub fresh client sound fresh_in =
    elim (pick_loop-LoopOutcome hub.channels sound.unique) [
      | inr (cs, addr, e, k) ↦ inr (
        write_channel (record hub { channels = cs }) addr
            (λ c. record c { source_thread = some client }),
        addr,
        ap (λ r. or_add fresh client hub (record hub { channels = r.0 }, r.1)) e,
        picked-Claimed hub fresh client addr cs sound k,
      )
      | inl (e, none_idle) ↦ added e none_idle fresh fresh_in
    ]
  where
    added :
        turn_first is_idle ready hub.channels ≡ (hub.channels, none)
        → NoneIn idle hub.channels
        → (new : Option ℕ) → IsFresh hub new
        → GetOutcome hub new client (get_free_channel hub new client)
    added e none_idle none fresh_in = inl (
      ap (λ r. or_add none client hub (record hub { channels = r.0 }, r.1)) e,
      none_idle,
      inl refl,
    )
    added e none_idle (some addr) fresh_in =
        elim (Bool-cases (ltb hub.total_channels hub.max_client)) [
          | inl room ↦ inr (
            record hub {
              channels =
                  record (channel_init addr) { state = ready; source_thread = some client }
                  ∷ hub.channels;
              total_channels = hub.total_channels + 1;
            },
            addr,
            ap (λ r. or_add (some addr) client hub (record hub { channels = r.0 }, r.1)) e
                ∙ ground (arith, room),
            added-Claimed hub client addr sound (fresh_in addr refl) none_idle (ground arith),
          )
          | inr full ↦ inl (
            ap (λ r. or_add (some addr) client hub (record hub { channels = r.0 }, r.1)) e
                ∙ ground (arith, full),
            none_idle,
            inr (ground arith),
          )
        ]

pub find_channel-NoneIn :
    (s : ChannelState) (a : ℕ) (cs : List Channel) (c : Channel)
    → NoneIn s cs
    → find_channel a cs ≡ some c
    → c.state ≢ s
find_channel-NoneIn s a [] c none_in h = absurd (ground arith)
find_channel-NoneIn s a (d ∷ cs) c none_in h = elim (ℕ_discrete d.addr a) [
  | yes e ↦ let same : d ≡ c = ground (arith, h, e) in subst (λ o. o.state ≢ s) same none_in.0
  | no ne ↦ find_channel-NoneIn s a cs c none_in.1 (ground (arith, h, ne))
]

-- The channel that a client waits on, with the state it is in.
pub record Waits (hub : Hub) (addr client : ℕ) (param : Param) (state : ChannelState) : Type 0 where
  pub sound : IsSound hub
  pub channel : Channel
  pub at : find_channel addr hub.channels ≡ some channel
  pub in_state : channel.state ≡ state
  pub is_source : channel.source_thread ≡ some client
  pub asks : channel.param ≡ param

pub written-IsSound :
    (hub : Hub) (addr : ℕ) (f : Channel → Channel)
    → ((c : Channel) → (f c).addr ≡ c.addr)
    → IsSound hub
    → IsSound (write_channel hub addr f)
written-IsSound hub addr f keeps sound = record {
  counted = omega (arith, sound.counted, update-length addr f keeps hub.channels);
  bounded = sound.bounded;
  unique = λ b. omega (arith, sound.unique b, update-count addr f keeps hub.channels b);
}

-- What `NX_HubCallParam` comes to up to the wait.
abbrev pub BeginOutcome : Hub → (fresh : Option ℕ) → (client : ℕ) → Param → Hub × Option ℕ → Type 0
BeginOutcome hub fresh client param r =
    ((r ≡ (hub, none))
      × NoneIn idle hub.channels
      × ((fresh ≡ none) ⊎ (hub.max_client ≤ hub.total_channels)))
    ⊎ ((hub' : Hub) × (addr : ℕ) × (r ≡ (hub', some addr))
        × Waits hub' addr client param active
        × ((b : ℕ) → b ≢ addr → find_channel b hub'.channels ≡ find_channel b hub.channels)
        × (((c : Channel) × (find_channel addr hub.channels ≡ some c) × (c.state ≡ idle))
            ⊎ ((fresh ≡ some addr) × NoneIn idle hub.channels)))

-- A call of a hub in order makes a channel of its own active with the parameters of the call, and changes
-- no channel of another call; or it fails and changes nothing, only when no channel is idle and there is
-- no memory or the limit of channels is reached.
pub call_begin-BeginOutcome :
    (hub : Hub) (fresh : Option ℕ) (client : ℕ) (param : Param)
    → IsSound hub
    → IsFresh hub fresh
    → BeginOutcome hub fresh client param (call_begin hub fresh client param)
unfolding call_begin migrate migrate_to_server
call_begin-BeginOutcome hub fresh client param sound fresh_in =
    elim (get_free_channel-GetOutcome hub fresh client sound fresh_in) [
      | inl (e, none_idle, why) ↦ inl (ap (migrate param) e, none_idle, why)
      | inr (hub', addr, e, k) ↦
          let f : Channel → Channel = λ c. record c { param = param; state = active } in
          inr (
            migrate_to_server hub' param addr,
            addr,
            ap (migrate param) e,
            record {
              sound = written-IsSound hub' addr f (λ c. refl) k.sound;
              channel = f k.channel;
              at = update-find_self addr f (λ c. refl) hub'.channels k.channel k.at;
              in_state = refl;
              is_source = k.is_source;
              asks = refl;
            },
            λ b ne. update-find_other addr f (λ c. refl) hub'.channels b ne ∙ k.others b ne,
            k.was_free,
          )
    ]
