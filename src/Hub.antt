-- ===== src/Hub.antt =====
-- src/ipc/hub/hub.c and src/include/base/hub.h: a hub of a server thread and the channels on which
-- client threads call it. A thread is named by its number, a channel and a hub by the number that stands
-- for its address, which allocation gives (`none` when there is no memory). A list has its head first.
-- Each definition is the code between taking and giving back the lock of the hub, or the code between
-- two places where the thread can wait; the locks are not represented. The descriptions of mapped memory
-- of a channel are not represented here.
pub mod Serve
pub mod Channels
pub mod Calls
pub mod Signals
pub mod Answers
pub mod Release
pub mod Names
pub mod Translate
mod Tests
use nxos.Base.{
  ℕ, zero, suc, ◌+◌, ◌-◌, ◌%◌, ◌^◌, ◌≡◌, Bool, true, false, ◌&&◌, Option, none, some, List, [], ◌∷◌,
  ltb, ◌==◌, word, sub_word, if◌then◌else◌, length, ◌*◌, Error, eok, einval, efault, eagain, ebusy,
  enomem, enores, enosrch,
}
use nxos.Semaphore.{Semaphore, semaphore_magic, Waited, failed, taken, blocked, wait}

-- `NX_HubParam`
pub record Param : Type 0 where
  pub api : ℕ
  pub args : List ℕ

-- `NX_HubChannelState`
pub data ChannelState : Type 0 where
  idle ready active handled : ChannelState

-- `NX_HubChannel`
pub record Channel : Type 0 where
  pub addr : ℕ
  pub state : ChannelState
  pub source_thread : Option ℕ
  pub target_thread : Option ℕ
  pub ret_val : ℕ
  pub ret_err : Error
  pub sync_sem : Semaphore
  pub param : Param

-- `NX_Hub`
pub record Hub : Type 0 where
  pub name : List ℕ
  pub max_client : ℕ
  pub total_channels : ℕ
  pub channels : List Channel
  pub idle_time : ℕ

abbrev pub hub_idle_time : ℕ
hub_idle_time = 10

-- `HubChannelInit`; the fields that it does not write are as in memory that holds zeros.
abbrev pub channel_init : ℕ → Channel
channel_init addr = record {
  addr = addr;
  state = idle;
  source_thread = none;
  target_thread = none;
  ret_val = 0;
  ret_err = eok;
  sync_sem = record { value = 0; wait_list = []; magic = semaphore_magic };
  param = record { api = 0; args = [] };
}

-- `HubInit`
abbrev pub hub_init : (name : List ℕ) (max_client : ℕ) → Hub
hub_init name max_client = record {
  name = name;
  max_client = max_client;
  total_channels = 0;
  channels = [];
  idle_time = 0;
}

-- `HubAddChannel`
unfoldable pub add_channel : Hub → Channel → Hub
add_channel hub channel = record hub {
  channels = record channel { state = idle } ∷ hub.channels;
  total_channels = hub.total_channels + 1;
}

abbrev pub is_idle : ChannelState → Bool
is_idle idle = true
is_idle _ = false

abbrev pub is_active : ChannelState → Bool
is_active active = true
is_active _ = false

-- The loop of `HubPickChannel` and that of `NX_HubPoll`: the first channel in a state that passes a
-- test gets another state.
abbrev pub keep_first : Channel → List Channel × Option ℕ → List Channel × Option ℕ
keep_first c (cs, got) = (c ∷ cs, got)

abbrev pub turn_first :
    (ChannelState → Bool) → ChannelState → List Channel → List Channel × Option ℕ
turn_first test new [] = ([], none)
turn_first test new (c ∷ cs) =
    if test c.state
    then (record c { state = new } ∷ cs, some c.addr)
    else keep_first c (turn_first test new cs)

-- `HubPickChannel`
unfoldable pub pick_channel : Hub → Hub × Option ℕ
pick_channel hub =
    let (channels, got) = turn_first is_idle ready hub.channels in
    (record hub { channels = channels }, got)

-- A write to the channel at an address.
abbrev pub update : ℕ → (Channel → Channel) → List Channel → List Channel
update addr f [] = []
update addr f (c ∷ cs) = if c.addr == addr then f c ∷ cs else c ∷ update addr f cs

abbrev pub find_channel : ℕ → List Channel → Option Channel
find_channel addr [] = none
find_channel addr (c ∷ cs) = if c.addr == addr then some c else find_channel addr cs

abbrev pub write_channel : Hub → ℕ → (Channel → Channel) → Hub
write_channel hub addr f = record hub { channels = update addr f hub.channels }

-- The end of `GetFreeChannel`. The code writes through the pointer also when it is NX_NULL.
abbrev pub set_source : (source : ℕ) → Hub × Option ℕ → Hub × Option ℕ
set_source source (hub, none) = (hub, none)
set_source source (hub, some addr) =
    (write_channel hub addr (λ c. record c { source_thread = some source }), some addr)

-- Adding a channel in `GetFreeChannel`, with `CreateChannel` of an address from the allocator.
unfoldable pub try_add : Hub → (fresh : Option ℕ) → (source : ℕ) → Hub × Option ℕ
unfolding add_channel pick_channel
try_add hub none source = (hub, none)
try_add hub (some addr) source =
    if ltb hub.total_channels hub.max_client
    then set_source source (pick_channel (add_channel hub (channel_init addr)))
    else (hub, none)

unfoldable pub or_add : (fresh : Option ℕ) (source : ℕ) → Hub → Hub × Option ℕ → Hub × Option ℕ
unfolding try_add
or_add fresh source hub (hub', none) = try_add hub fresh source
or_add fresh source hub (hub', some addr) = set_source source (hub', some addr)

-- `GetFreeChannel` by a thread that no other one interrupts.
unfoldable pub get_free_channel : Hub → (fresh : Option ℕ) → (source : ℕ) → Hub × Option ℕ
unfolding pick_channel
get_free_channel hub fresh source = or_add fresh source hub (pick_channel hub)

-- `PutFreeChannel`
unfoldable pub put_free_channel : Hub → ℕ → Hub
put_free_channel hub addr =
    write_channel hub addr
      λ c. record c { state = idle; source_thread = none; target_thread = none }

-- `HubMigrateToServer` up to the wait for the server.
unfoldable pub migrate_to_server : Hub → Param → ℕ → Hub
migrate_to_server hub param addr =
    write_channel hub addr (λ c. record c { param = param; state = active })

-- `NX_HubCallParam` up to the wait: the channel that the client waits on.
unfoldable pub migrate : Param → Hub × Option ℕ → Hub × Option ℕ
unfolding migrate_to_server
migrate param (hub, none) = (hub, none)
migrate param (hub, some addr) = (migrate_to_server hub param addr, some addr)

unfoldable pub call_begin : Hub → (fresh : Option ℕ) → (client : ℕ) → Param → Hub × Option ℕ
unfolding get_free_channel migrate
call_begin hub fresh client param = migrate param (get_free_channel hub fresh client)

-- What the rest of a call comes to: the channel has been freed, the client is blocked, or it has its
-- answer.
pub data Ended : Type 0 where
  freed : Ended
  waits : Hub → Ended
  ended : Hub → (ret_val : ℕ) → Error → Ended

-- `NX_HubCallParam` after the wait, whose result the code does not look at.
abbrev pub after_wait : Hub → (addr : ℕ) → Channel → Option Semaphore × Waited → Ended
after_wait hub addr c (none, _) = freed
after_wait hub addr c (some sem, blocked) =
    waits (write_channel hub addr (λ d. record d { sync_sem = sem }))
after_wait hub addr c (some sem, _) =
    ended (put_free_channel (write_channel hub addr (λ d. record d { sync_sem = sem })) addr)
      c.ret_val c.ret_err

-- `NX_SemaphoreWait` of `HubMigrateToServer` by the client, and the rest of `NX_HubCallParam` when it does
-- not block. A blocked client does the same again when it runs.
unfoldable pub call_end : Hub → (client addr : ℕ) → Ended
unfolding wait put_free_channel
call_end hub client addr = elim (find_channel addr hub.channels) [
  | none ↦ freed
  | some c ↦ after_wait hub addr c (wait (some c.sync_sem) client)
]
