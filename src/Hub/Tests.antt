-- ===== src/Hub/Tests.antt =====
-- A hub of src/ipc/hub/hub.c with one channel in use, called by a second client.
use nxos.Base.{◌+◌, ℕ, ◌≡◌, refl, none, some, [], ◌∷◌, arith, eok, eagain, if◌then◌else◌, ◌==◌}
use nxos.Hub.{
  Param, active, handled, Hub, channel_init, hub_init, call_begin, get_free_channel, pick_channel,
  try_add, or_add, migrate, migrate_to_server, add_channel, Channel,
}
use nxos.Hub.Serve.{poll}
use nxos.Hub.Channels.{NoneIn}
use nxos.Hub.Calls.{IsSound, IsFresh, BeginOutcome, call_begin-BeginOutcome}
use nxos.Hub.Answers.{Answered, call-answer}
use nxos.Hub.Release.{IdlePoll, poll-IdlePoll}
use nxos.Hub.Translate.{Spaces}

abbrev asked : Param
asked = record { api = 2; args = 11 ∷ 12 ∷ [] }

-- Client 7 has its answer and has not read it yet.
abbrev busy : Hub
busy = record (hub_init (104 ∷ []) 4) {
  total_channels = 1;
  channels = record (channel_init 100) { state = handled; source_thread = some 7 } ∷ [];
  idle_time = 5;
}

busy-IsSound : IsSound busy
busy-IsSound = record { counted = refl; bounded = omega arith; unique = λ a. ground arith }

busy-IsFresh : IsFresh busy (some 200)
busy-IsFresh a e = ground arith

abbrev called : Hub
unfolding call_begin get_free_channel pick_channel or_add try_add add_channel migrate
    migrate_to_server
called = (call_begin busy (some 200) 8 asked).0

call_begin-BeginOutcome_example :
    BeginOutcome busy (some 200) 8 asked (call_begin busy (some 200) 8 asked)
call_begin-BeginOutcome_example =
    call_begin-BeginOutcome busy (some 200) 8 asked busy-IsSound busy-IsFresh

busy_quiet : NoneIn active busy.channels
busy_quiet = ((λ e. cc), tt)

call-answer_example :
    (hub' : Hub) × (poll (record { hub = some called; active_channel = none }) 3 50
      ≡ (record { hub = some hub'; active_channel = some 200 }, some asked, eok))
    × Answered hub' 8 200 3 42 eok
unfolding call_begin get_free_channel pick_channel or_add try_add add_channel migrate
    migrate_to_server called
call-answer_example =
    call-answer busy called (some 200) 8 200 asked none 3 50 42 eok busy-IsSound (refl, tt)
      busy-IsFresh busy_quiet refl

poll-IdlePoll_example :
    (hub' : Hub) × (poll (record { hub = some busy; active_channel = none }) 3 20000
      ≡ (record { hub = some hub'; active_channel = none }, none, eagain))
    × IdlePoll busy 20000 hub'
poll-IdlePoll_example = poll-IdlePoll busy none 3 20000 busy-IsSound busy_quiet

-- A space that maps every page one to one, but for the first one.
abbrev spaces : Spaces ℕ
spaces = record {
  vir_to_phy = λ a. a;
  map_page = λ s a. if a == 0 then none else some (a, s + 1);
  unmap = λ s a len. s;
}

abbrev handled_call : Channel
handled_call = record (channel_init 100) {
  state = handled;
  source_thread = some 7;
  target_thread = some 3;
  param = record { api = 2; args = 8200 ∷ [] };
}
