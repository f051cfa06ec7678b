-- ===== src/Hub/Channels.antt =====
-- The list of channels of a hub of src/ipc/hub/hub.c: looking up, writing and picking channels.
use nxos.Base.{
  ℕ, ◌+◌, ◌≤◌, ◌≡◌, ◌≢◌, refl, ap, ◌⊎◌, inl, inr, Bool, true, false, Option, none, some, List, [],
  ◌∷◌, arith, ◌==◌, if◌then◌else◌, length, ℕ_discrete, Bool-cases,
}
use nxos.Hub.{
  Channel, ChannelState, idle, ready, active, handled, update, find_channel, keep_first, turn_first,
  is_idle, is_active,
}

-- How many channels have an address.
abbrev pub count_addr : ℕ → List Channel → ℕ
count_addr a [] = 0
count_addr a (c ∷ cs) = (if c.addr == a then 1 else 0) + count_addr a cs

-- The address of a channel is not another one's.
abbrev pub Unique : List Channel → Type 0
Unique cs = (a : ℕ) → count_addr a cs ≤ 1

Unique-tail : (c : Channel) (cs : List Channel) → Unique (c ∷ cs) → Unique cs
Unique-tail c cs u a = let h = u a in omega arith

pub find_channel-count :
    (a : ℕ) (cs : List Channel) (c : Channel)
    → find_channel a cs ≡ some c
    → (1 ≤ count_addr a cs) × (c.addr ≡ a)
find_channel-count a [] c h = absurd (ground arith)
find_channel-count a (d ∷ cs) c h = elim (ℕ_discrete d.addr a) [
  | yes e ↦ (ground arith, ground (arith, h, e))
  | no ne ↦ let (n, e) = find_channel-count a cs c (ground (arith, h, ne)) in (omega (arith, n), e)
]

pub find_channel-head : (c : Channel) (cs : List Channel) → find_channel c.addr (c ∷ cs) ≡ some c
find_channel-head c cs = ground arith

pub find_channel-tail :
    (a : ℕ) (c : Channel) (cs : List Channel)
    → c.addr ≢ a
    → find_channel a (c ∷ cs) ≡ find_channel a cs
find_channel-tail a c cs ne = ground arith

-- A write keeps the addresses.
abbrev pub KeepsAddr : (Channel → Channel) → Type 0
KeepsAddr f = (c : Channel) → (f c).addr ≡ c.addr

module _ (a : ℕ) (f : Channel → Channel) (keeps : KeepsAddr f) where
  pub update-find_self :
      (cs : List Channel) (c : Channel)
      → find_channel a cs ≡ some c
      → find_channel a (update a f cs) ≡ some (f c)
  update-find_self [] c h = absurd (ground arith)
  update-find_self (d ∷ cs) c h = elim (ℕ_discrete d.addr a) [
    | yes e ↦ let same : d ≡ c = ground (arith, h, e) in ground (arith, e, keeps d, ap f same)
    | no ne ↦ ground (arith, ne, update-find_self cs c (ground (arith, h, ne)))
  ]

  pub update-find_other :
      (cs : List Channel) (b : ℕ) → b ≢ a → find_channel b (update a f cs) ≡ find_channel b cs
  update-find_other [] b ne = refl
  update-find_other (d ∷ cs) b ne = elim (ℕ_discrete d.addr a) [
    | yes e ↦ ground (arith, e, ne, keeps d)
    | no other ↦ ground (arith, other, update-find_other cs b ne)
  ]

  pub update-count : (cs : List Channel) (b : ℕ) → count_addr b (update a f cs) ≡ count_addr b cs
  update-count [] b = refl
  update-count (d ∷ cs) b = elim (ℕ_discrete d.addr a) [
    | yes e ↦ ground (arith, e, keeps d)
    | no other ↦ ground (arith, other, update-count cs b)
  ]

  pub update-length : (cs : List Channel) → length (update a f cs) ≡ length cs
  update-length [] = refl
  update-length (d ∷ cs) = elim (ℕ_discrete d.addr a) [
    | yes e ↦ ground (arith, e)
    | no other ↦ ground (arith, other, update-length cs)
  ]

-- No channel is in a state.
abbrev pub NoneIn : ChannelState → List Channel → Type 0
NoneIn s [] = Unit {0}
NoneIn s (c ∷ cs) = (c.state ≢ s) × NoneIn s cs

-- The channel at an address went from one state to another one, and no other channel changed.
pub record Turned (was : ChannelState) (is : ChannelState) (cs : List Channel) (addr : ℕ)
    (cs' : List Channel) : Type 0 where
  pub chosen : Channel
  pub before : find_channel addr cs ≡ some chosen
  pub was_state : chosen.state ≡ was
  pub after : find_channel addr cs' ≡ some (record chosen { state = is })
  pub others : (b : ℕ) → b ≢ addr → find_channel b cs' ≡ find_channel b cs
  pub counts : (b : ℕ) → count_addr b cs' ≡ count_addr b cs
  pub lengths : length cs' ≡ length cs

head-Turned :
    (was is : ChannelState) (c : Channel) (cs : List Channel)
    → c.state ≡ was
    → Turned was is (c ∷ cs) c.addr (record c { state = is } ∷ cs)
head-Turned was is c cs e = record {
  chosen = c;
  before = ground arith;
  was_state = e;
  after = ground arith;
  others = λ b ne. ground (arith, ne);
  counts = λ b. refl;
  lengths = refl;
}

tail-Turned :
    (was is : ChannelState) (c : Channel) (cs cs' : List Channel) (addr : ℕ)
    → Unique (c ∷ cs)
    → Turned was is cs addr cs'
    → Turned was is (c ∷ cs) addr (c ∷ cs')
tail-Turned was is c cs cs' addr u k =
    let (n, e) = find_channel-count addr cs k.chosen k.before in
    let ne : c.addr ≢ addr = λ same. let h = u addr in ground (arith, n, same) in
    record {
      chosen = k.chosen;
      before = ground (arith, ne, k.before);
      was_state = k.was_state;
      after = ground (arith, ne, k.after);
      others = λ b other. ground (arith, k.others b other);
      counts = λ b. omega (arith, k.counts b);
      lengths = omega (arith, k.lengths);
    }

-- What the loops of `HubPickChannel` and `NX_HubPoll` do to channels with distinct addresses.
abbrev pub LoopOutcome :
    ChannelState → ChannelState → List Channel → List Channel × Option ℕ → Type 0
LoopOutcome was is cs r =
    ((r ≡ (cs, none)) × NoneIn was cs)
    ⊎ ((cs' : List Channel) × (addr : ℕ) × (r ≡ (cs', some addr)) × Turned was is cs addr cs')

keep_first-LoopOutcome :
    (was is : ChannelState) (c : Channel) (cs : List Channel) (r : List Channel × Option ℕ)
    → Unique (c ∷ cs)
    → c.state ≢ was
    → LoopOutcome was is cs r
    → LoopOutcome was is (c ∷ cs) (keep_first c r)
keep_first-LoopOutcome was is c cs r u ne (inl (e, none_in)) =
    inl (ap (keep_first c) e, (ne, none_in))
keep_first-LoopOutcome was is c cs r u ne (inr (cs', addr, e, k)) =
    inr (c ∷ cs', addr, ap (keep_first c) e, tail-Turned was is c cs cs' addr u k)

module _ (test : ChannelState → Bool) (was is : ChannelState)
    (passes : (s : ChannelState) → test s ≡ true → s ≡ was)
    (fails : (s : ChannelState) → test s ≡ false → s ≢ was) where
  pub turn_first-LoopOutcome :
      (cs : List Channel) → Unique cs → LoopOutcome was is cs (turn_first test is cs)
  turn_first-LoopOutcome [] u = inl (refl, tt)
  turn_first-LoopOutcome (c ∷ cs) u = elim (Bool-cases (test c.state)) [
    | inl e ↦ inr (
      record c { state = is } ∷ cs,
      c.addr,
      ground (arith, e),
      head-Turned was is c cs (passes c.state e),
    )
    | inr e ↦ rw e (
        keep_first-LoopOutcome was is c cs (turn_first test is cs) u (fails c.state e)
          (turn_first-LoopOutcome cs (Unique-tail c cs u)))
  ]

idle_passes : (s : ChannelState) → is_idle s ≡ true → s ≡ idle
idle_passes idle e = refl
idle_passes _ e = cc

idle_fails : (s : ChannelState) → is_idle s ≡ false → s ≢ idle
idle_fails idle e = cc
idle_fails _ e = λ h. cc

active_passes : (s : ChannelState) → is_active s ≡ true → s ≡ active
active_passes active e = refl
active_passes _ e = cc

active_fails : (s : ChannelState) → is_active s ≡ false → s ≢ active
active_fails active e = cc
active_fails _ e = λ h. cc

pub pick_loop-LoopOutcome :
    (cs : List Channel) → Unique cs → LoopOutcome idle ready cs (turn_first is_idle ready cs)
pick_loop-LoopOutcome = turn_first-LoopOutcome is_idle idle ready idle_passes idle_fails

pub poll_loop-LoopOutcome :
    (cs : List Channel)
    → Unique cs
    → LoopOutcome active handled cs (turn_first is_active handled cs)
poll_loop-LoopOutcome = turn_first-LoopOutcome is_active active handled active_passes active_fails
