-- ===== src/Hub/Release.antt =====
-- `NX_HubPoll` of src/ipc/hub/hub.c when no channel is active, with `HubCheckChannelRelease`.
use nxos.Base.{
  ℕ, ◌⊎◌, ◌-◌, ◌*◌, ◌<◌, ◌≤◌, ◌≡◌, ◌≢◌, refl, ap, subst, ◌∙◌, inl, inr, Option, none, some, [],
  arith, eagain, sub_word, ℕ_discrete, dec_lt, List, ◌∷◌, length,
}
use nxos.Hub.{active, Hub, hub_idle_time}
use nxos.Hub.Serve.{poll, poll_end, check_channel_release}
use nxos.Hub.Channels.{NoneIn, poll_loop-LoopOutcome}
use nxos.Hub.Calls.{IsSound, find_channel-NoneIn}

-- The hub after an idle poll at a time in milliseconds: one without channels is as it was, one that was not
-- idle before notes the time, one that has been idle for ten seconds at most is as it was, and one that has
-- been idle for longer has no channel left.
pub record IdlePoll (hub : Hub) (now : ℕ) (hub' : Hub) : Type 0 where
  pub sound : IsSound hub'
  pub change :
      ((hub.channels ≡ []) × (hub' ≡ hub))
      ⊎ ((hub.channels ≢ []) × (hub.idle_time ≡ 0) × (hub' ≡ record hub { idle_time = now }))
      ⊎ ((hub.channels ≢ [])
          × (hub.idle_time ≢ 0)
          × (sub_word now hub.idle_time ≤ hub_idle_time * 1000)
          × (hub' ≡ hub))
      ⊎ ((hub.channels ≢ [])
          × (hub.idle_time ≢ 0)
          × (hub_idle_time * 1000 < sub_word now hub.idle_time)
          × (hub' ≡ record hub { channels = []; total_channels = 0; idle_time = 0 }))

length-none : {A : Type 0} → (xs : List A) → length xs ≡ 0 → xs ≡ []
length-none [] e = refl
length-none (x ∷ xs) e = absurd (ground arith)

check_channel_release-IdlePoll :
    (hub : Hub) (now : ℕ) → IsSound hub → IdlePoll hub now (check_channel_release hub now)
unfolding check_channel_release
check_channel_release-IdlePoll hub now sound = elim (ℕ_discrete hub.total_channels 0) [
  | yes none_in ↦
      let no_channel = length-none hub.channels (omega (arith, none_in, sound.counted)) in
      subst (IdlePoll hub now) (ground (arith, none_in))
        (record { sound = sound; change = inl (no_channel, refl) })
  | no some_in ↦
      let full : hub.channels ≢ [] = λ e. some_in (sound.counted ∙ ap (λ x. length x) e) in
      elim (ℕ_discrete hub.idle_time 0) [
        | yes not_idle ↦ subst (IdlePoll hub now) (ground (arith, some_in, not_idle)) (record {
          sound = record {
            counted = sound.counted;
            bounded = sound.bounded;
            unique = sound.unique;
          };
          change = inr (inl (full, not_idle, refl));
        })
        | no idle ↦ elim (dec_lt (hub_idle_time * 1000) (sub_word now hub.idle_time)) [
          | yes long ↦ subst (IdlePoll hub now) (released some_in idle long) (record {
            sound = record { counted = refl; bounded = omega arith; unique = λ a. omega arith };
            change = inr (inr (inr (full, idle, long, refl)));
          })
          | no short ↦ subst (IdlePoll hub now) (ground (arith, some_in, idle, short)) (record {
            sound = sound;
            change = inr (inr (inl (full, idle, omega (arith, short), refl)));
          })
        ]
      ]
]
  where
    released :
        hub.total_channels ≢ 0
        → hub.idle_time ≢ 0
        → hub_idle_time * 1000 < sub_word now hub.idle_time
        → record hub { channels = []; total_channels = 0; idle_time = 0 }
          ≡ check_channel_release hub now
    released some_in idle long =
        ap (λ n. record hub { channels = []; total_channels = n; idle_time = 0 }) {x = 0}
          {y = hub.total_channels - length hub.channels} (omega (arith, sound.counted))
        ∙ ground (arith, some_in, idle, long)

-- A poll of a hub in order on which no call is active answers NX_EAGAIN. A hub with channels that was not
-- idle before notes the time and keeps its channels; when later such a poll comes more than ten seconds
-- after that time, every channel is freed, whatever its state, and when it comes earlier nothing changes.
-- A hub without channels does not change.
pub poll-IdlePoll :
    (hub : Hub) (old : Option ℕ) (thread now : ℕ)
    → IsSound hub
    → NoneIn active hub.channels
    → (hub' : Hub) × (poll (record { hub = some hub; active_channel = old }) thread now
        ≡ (record { hub = some hub'; active_channel = old }, none, eagain))
      × IdlePoll hub now hub'
unfolding poll poll_end
poll-IdlePoll hub old thread now sound quiet =
    elim (poll_loop-LoopOutcome hub.channels sound.unique) [
      | inr (cs, a, e, k) ↦
          absurd (find_channel-NoneIn active a hub.channels k.chosen quiet k.before k.was_state)
      | inl (e, none_active) ↦ (
        check_channel_release hub now,
        ap (poll_end hub old thread now) e,
        check_channel_release-IdlePoll hub now sound,
      )
    ]
