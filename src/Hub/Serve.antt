-- ===== src/Hub/Serve.antt =====
-- The server's side of a hub of src/ipc/hub/hub.c: polling for a call, its answer, and the release of
-- channels.
use nxos.Base.{
  ℕ, ◌-◌, Bool, false, Option, none, some, List, [], ltb, ◌==◌, sub_word, if◌then◌else◌, length,
  ◌*◌, Error, eok, efault, eagain, enores,
}
use nxos.Semaphore.{Semaphore, signal}
use nxos.Hub.{
  Param, Channel, handled, is_active, Hub, hub_idle_time, turn_first, update, find_channel,
  write_channel,
}

-- The loop of `HubCheckChannelRelease`, with `HubDelChannelLocked` for each channel.
abbrev pub release : Hub → Hub
release hub = record hub {
  channels = [];
  total_channels = hub.total_channels - length hub.channels;
  idle_time = 0;
}

-- `HubCheckChannelRelease` at a time in milliseconds.
unfoldable pub check_channel_release : Hub → (now : ℕ) → Hub
check_channel_release hub now =
    let since = if hub.idle_time == 0 then now else hub.idle_time in
    if hub.total_channels == 0
    then hub
    else (if ltb (hub_idle_time * 1000) (sub_word now since)
        then release hub
        else record hub { idle_time = since })

-- What a thread keeps of hubs: its own hub and the channel that it handles.
pub record Server : Type 0 where
  pub hub : Option Hub
  pub active_channel : Option ℕ

-- `NX_HubPoll` after its loop.
unfoldable pub poll_end :
    Hub → Option ℕ → (thread now : ℕ) → List Channel × Option ℕ → Server × Option Param × Error
unfolding check_channel_release
poll_end hub old thread now (channels, none) = (
  record {
    hub = some (check_channel_release (record hub { channels = channels }) now);
    active_channel = old;
  },
  none,
  eagain,
)
poll_end hub old thread now (channels, some addr) = (
  record {
    hub = some (record hub {
      channels = update addr (λ c. record c { target_thread = some thread }) channels;
      idle_time = 0;
    });
    active_channel = some addr;
  },
  elim (find_channel addr channels) [ none ↦ none | some c ↦ some c.param ],
  eok,
)

-- `NX_HubPoll`
unfoldable pub poll : Server → (thread now : ℕ) → Server × Option Param × Error
unfolding poll_end
poll s thread now = elim s.hub [
  | none ↦ (s, none, enores)
  | some hub ↦ poll_end hub s.active_channel thread now (turn_first is_active handled hub.channels)
]

-- `HubMigrateToClient`
unfoldable pub signalled : Semaphore → Semaphore
unfolding signal
signalled sem = elim (signal (some sem)).0 [ none ↦ sem | some sem' ↦ sem' ]

unfoldable pub migrate_to_client : Hub → ℕ → ℕ → Error → Hub
unfolding signalled
migrate_to_client hub addr ret_val ret_err =
    write_channel hub addr
      λ c. record c { ret_val = ret_val; ret_err = ret_err; sync_sem = signalled c.sync_sem }

-- `NX_HubReturn`; `none` is a channel that has been freed.
abbrev pub is_thread : ℕ → Option ℕ → Bool
is_thread t none = false
is_thread t (some u) = t == u

unfoldable pub hub_return : Server → (thread ret_val : ℕ) → Error → Option (Server × Error)
unfolding migrate_to_client
hub_return s thread ret_val ret_err = elim s.hub [
  | none ↦ some (s, efault)
  | some hub ↦ elim s.active_channel [
    | none ↦ some (s, eagain)
    | some addr ↦ elim (find_channel addr hub.channels) [
      | none ↦ none
      | some c ↦
          if is_thread thread c.target_thread
          then some (
            record {
              hub = some (migrate_to_client hub addr ret_val ret_err);
              active_channel = none;
            },
            eok,
          )
          else some (s, efault)
    ]
  ]
]
