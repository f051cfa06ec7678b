-- ===== src/Hub/Answers.antt =====
-- A call of a hub of src/ipc/hub/hub.c, from the server's poll to the answer that the client gets.
use nxos.Base.{
  ℕ, ◌≡◌, ◌≢◌, refl, ap, sym, subst, ◌∙◌, inl, inr, Option, none, some, List, arith, ℕ_discrete,
  Error, eok,
}
use nxos.Hub.{
  Param, Channel, idle, active, handled, Hub, find_channel, turn_first, is_active, put_free_channel,
  call_begin, call_end, write_channel, after_wait, ended,
}
use nxos.Semaphore.{semaphore_magic}
use nxos.Hub.Serve.{Server, poll, poll_end, hub_return, migrate_to_client, signalled}
use nxos.Hub.Signals.{
  HasSemaphores, find_channel-HasSemaphores, call_begin-HasSemaphores, wait-signalled,
}
use nxos.Hub.Channels.{NoneIn, Turned, update-find_self, update-find_other, poll_loop-LoopOutcome}
use nxos.Hub.Calls.{
  IsSound, IsFresh, Waits, call_begin-BeginOutcome, find_channel-NoneIn, written-IsSound,
}

-- What a poll that finds the channel comes to.
abbrev pub Polled : Hub → (addr client : ℕ) → Param → (old : Option ℕ) → (thread now : ℕ) → Type 0
Polled hub addr client param old thread now =
    (hub' : Hub) × (c : Channel) × (poll (record { hub = some hub; active_channel = old }) thread
        now
      ≡ (record { hub = some hub'; active_channel = some addr }, some param, eok))
    × (find_channel addr hub'.channels ≡ some c)
    × (c.target_thread ≡ some thread)
    × (c.source_thread ≡ some client)
    × (c.sync_sem.magic ≡ semaphore_magic)
    × IsSound hub'

poll_taken :
    (hub : Hub) (addr client : ℕ) (param : Param) (old : Option ℕ) (thread now : ℕ)
    (cs : List Channel)
    → HasSemaphores hub.channels
    → Waits hub addr client param active
    → turn_first is_active handled hub.channels ≡ (cs, some addr)
    → Turned active handled hub.channels addr cs
    → Polled hub addr client param old thread now
unfolding poll poll_end
poll_taken hub addr client param old thread now cs sems w e k =
    let f : Channel → Channel = λ c. record c { target_thread = some thread } in
    let same : w.channel ≡ k.chosen = ground (arith, w.at, k.before) in
    let mid : Hub = record hub { channels = cs; idle_time = 0 } in
    (
      write_channel mid addr f,
      f (record k.chosen { state = handled }),
      ap (poll_end hub old thread now) e ∙ ground (arith, k.after, w.asks, ap (λ c. c.param) same),
      update-find_self addr f (λ c. refl) cs (record k.chosen { state = handled }) k.after,
      refl,
      sym (ap (λ c. c.source_thread) same) ∙ w.is_source,
      find_channel-HasSemaphores addr hub.channels k.chosen sems k.before,
      written-IsSound mid addr f (λ c. refl)
          (record {
            counted = omega (arith, w.sound.counted, k.lengths);
            bounded = w.sound.bounded;
            unique = λ b. omega (arith, w.sound.unique b, k.counts b);
          }),
    )

-- The server's poll takes the channel if no other one is active.
pub poll-Polled :
    (hub : Hub) (addr client : ℕ) (param : Param) (old : Option ℕ) (thread now : ℕ)
    → HasSemaphores hub.channels
    → Waits hub addr client param active
    → ((b : ℕ) (c : Channel) → b ≢ addr → find_channel b hub.channels ≡ some c → c.state ≢ active)
    → Polled hub addr client param old thread now
poll-Polled hub addr client param old thread now sems w alone =
    elim (poll_loop-LoopOutcome hub.channels w.sound.unique) [
      | inl (e, none_active) ↦
          absurd
            (find_channel-NoneIn active addr hub.channels w.channel none_active w.at w.in_state)
      | inr (cs, a, e, k) ↦ elim (ℕ_discrete a addr) [
        | no ne ↦ absurd (alone a k.chosen ne k.before k.was_state)
        | yes same ↦
            poll_taken hub addr client param old thread now cs sems w
              (subst (λ x. turn_first is_active handled hub.channels ≡ (cs, some x)) same e)
              (subst (λ x. Turned active handled hub.channels x cs) same k)
      ]
    ]

-- The way from the answer to the client.
pub record Answered (hub : Hub) (client addr : ℕ) (thread ret_val : ℕ) (ret_err : Error)
    : Type 0 where
  pub server : Server
  pub hub_answered : Hub
  pub hub_after : Hub
  pub channel : Channel
  pub returns :
      hub_return (record { hub = some hub; active_channel = some addr }) thread ret_val ret_err
      ≡ some (server, eok)
  pub held : server ≡ record { hub = some hub_answered; active_channel = none }
  pub ends : call_end hub_answered client addr ≡ ended hub_after ret_val ret_err
  pub at : find_channel addr hub_after.channels ≡ some channel
  pub idle_again : channel.state ≡ idle
  pub others : (b : ℕ) → b ≢ addr → find_channel b hub_after.channels ≡ find_channel b hub.channels
  pub sound : IsSound hub_after

return-Answered :
    (hub : Hub) (client addr thread ret_val : ℕ) (ret_err : Error) (c : Channel)
    → IsSound hub
    → find_channel addr hub.channels ≡ some c
    → c.target_thread ≡ some thread
    → c.sync_sem.magic ≡ semaphore_magic
    → Answered hub client addr thread ret_val ret_err
unfolding hub_return migrate_to_client call_end put_free_channel
return-Answered hub client addr thread ret_val ret_err c sound at target magic =
    let (sem, got) = wait-signalled c.sync_sem client magic in
    let f : Channel → Channel =
      λ d. record d { ret_val = ret_val; ret_err = ret_err; sync_sem = signalled d.sync_sem } in
    let w : Channel → Channel = λ d. record d { sync_sem = sem } in
    let g : Channel → Channel =
      λ d. record d { state = idle; source_thread = none; target_thread = none } in
    let answered = write_channel hub addr f in
    let taken_hub = write_channel answered addr w in
    let mid = update-find_self addr f (λ d. refl) hub.channels c at in
    let mid2 = update-find_self addr w (λ d. refl) answered.channels (f c) mid in
    record {
      server = record { hub = some answered; active_channel = none };
      hub_answered = answered;
      hub_after = write_channel taken_hub addr g;
      channel = g (w (f c));
      returns = ground (arith, at, target);
      held = refl;
      ends = rw (mid, call_end) (ap (after_wait answered addr (f c)) got);
      at = update-find_self addr g (λ d. refl) taken_hub.channels (w (f c)) mid2;
      idle_again = refl;
      others = λ b ne.
          update-find_other addr g (λ d. refl) taken_hub.channels b ne
          ∙ update-find_other addr w (λ d. refl) answered.channels b ne
          ∙ update-find_other addr f (λ d. refl) hub.channels b ne;
      sound =
          written-IsSound taken_hub addr g (λ d. refl)
            (written-IsSound answered addr w (λ d. refl)
              (written-IsSound hub addr f (λ d. refl) sound));
    }

-- A client calls a hub in order on which no call is active and the semaphore of every channel has been
-- initialised, and gets a channel: then the server's `NX_HubPoll` delivers exactly the parameters of this
-- call, its `NX_HubReturn` succeeds and signals the semaphore, so that the client's wait does not block,
-- and the client's `NX_HubCallParam` ends with the value and the error code that the server gave, with the
-- channel idle again and the hub in order.
pub call-answer :
    (hub hub' : Hub) (fresh : Option ℕ) (client addr : ℕ) (param : Param) (old : Option ℕ)
    (thread now ret_val : ℕ) (ret_err : Error)
    → IsSound hub
    → HasSemaphores hub.channels
    → IsFresh hub fresh
    → NoneIn active hub.channels
    → call_begin hub fresh client param ≡ (hub', some addr)
    → (hub'' : Hub) × (poll (record { hub = some hub'; active_channel = old }) thread now
        ≡ (record { hub = some hub''; active_channel = some addr }, some param, eok))
      × Answered hub'' client addr thread ret_val ret_err
call-answer hub hub' fresh client addr param old thread now ret_val ret_err sound sems fresh_in
      quiet h =
    elim (call_begin-BeginOutcome hub fresh client param sound fresh_in) [
      | inl (e, none_idle, why) ↦ absurd (ground (arith, h, e))
      | inr (h1, a, e, w, others, was_free) ↦
          let same : (h1, some a) ≡ (hub', some addr) = sym e ∙ h in
          let sems1 = call_begin-HasSemaphores hub h1 fresh client param a sems e in
          let (h2, c, polled, at, target, source, magic, ok) =
            poll-Polled h1 a client param old thread now sems1 w (λ b d ne is.
              find_channel-NoneIn active b hub.channels d quiet (sym (others b ne) ∙ is)) in
          let same_addr : a ≡ addr = ground (arith, same) in
          (
            h2,
            ap (λ o. poll (record { hub = some o; active_channel = old }) thread now)
                  (sym (ap (λ r. r.0) same))
                ∙ polled
                ∙ ap
                    (λ x. (
                      record { hub = some h2; active_channel = some x },
                      Option.some param,
                      Error.eok,
                    ))
                    same_addr,
            subst (λ x. Answered h2 client x thread ret_val ret_err) same_addr
                (return-Answered h2 client a thread ret_val ret_err c ok at target magic),
          )
    ]
