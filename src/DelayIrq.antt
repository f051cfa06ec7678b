-- ===== src/DelayIrq.antt =====
-- src/io/delay_irq.c: work that interrupt handlers put off. A work is named by its number; its flags
-- that the code reads are fields. `delayIrqListTable` is `queues`, and `delayIrqEvent` has a bit for each
-- queue. What a handler does is not represented, but the log notes each call and whether interrupts were
-- enabled in it. Operations of other processors and interrupts do not come in between.
pub mod Queues
pub mod Check
mod Tests
use nxos.Base.{
  ℕ, zero, suc, ◌+◌, ◌-◌, ◌≡◌, Bool, true, false, ◌&&◌, ◌||◌, not, Option, none, some, List, [],
  ◌∷◌, ◌++◌, ltb, leb, ◌==◌, if◌then◌else◌, get_elem?, set, replicate, Error, eok, einval, efault,
  eagain, enosrch,
}

-- `NX_IRQ_DelayWork` with NX_IRQ_WORK_PENDING, NX_IRQ_WORK_ON_QUEUED and NX_IRQ_WORK_NOREENTER.
pub record Work : Type 0 where
  pub pending : Bool
  pub on_queued : Bool
  pub noreenter : Bool
  pub queue : ℕ

-- A call of a handler, and whether interrupts were enabled when it started.
pub record Call : Type 0 where
  pub work : ℕ
  pub enabled : Bool

pub record Delays : Type 0 where
  pub works : ℕ → Work
  pub queues : List (List ℕ)
  pub event : List Bool
  pub enabled : Bool
  pub calls : List Call

-- NX_IRQ_QUEUE_NR
abbrev pub queue_nr : ℕ
queue_nr = 5

abbrev pub put_work : Delays → ℕ → Work → Delays
put_work s w work = record s { works = λ v. if v == w then work else s.works v }

-- `NX_IRQ_DelayQueueInit`
abbrev pub queue_init : (works : ℕ → Work) → Delays
queue_init works = record {
  works = works;
  queues = replicate queue_nr [];
  event = replicate queue_nr false;
  enabled = false;
  calls = [];
}

-- `NX_IRQ_DelayWorkInit` of a handler that there is; `noreenter` says whether the flags given have
-- NX_IRQ_WORK_NOREENTER, the only flag of the three that a caller gives.
unfoldable pub work_init : Delays → ℕ → (noreenter : Bool) → Delays
work_init s w noreenter =
    put_work s w
      (record (s.works w) { pending = false; on_queued = false; noreenter = noreenter && false })

abbrev pub mem : ℕ → List ℕ → Bool
mem w [] = false
mem w (v ∷ vs) = v == w || mem w vs

abbrev pub without : ℕ → List ℕ → List ℕ
without w [] = []
without w (v ∷ vs) = if v == w then vs else v ∷ without w vs

-- The queue of a number, or an error when there is none.
abbrev pub on_queue : Delays → Option (List ℕ) → (List ℕ → Delays × Error) → Delays × Error
on_queue s none f = (s, einval)
on_queue s (some ws) f = f ws

-- `NX_IRQ_DelayQueueEnter`
unfoldable pub queue_enter : Delays → (queue w : ℕ) → Delays × Error
queue_enter s queue w = on_queue s (get_elem? s.queues queue) λ ws.
    if mem w ws then (s, eagain) else (
      record (put_work s w (record (s.works w) { queue = queue; on_queued = true })) {
        queues = set s.queues queue (ws ++ w ∷ []);
      },
      eok,
    )

-- `NX_IRQ_DelayQueueLeave`
unfoldable pub queue_leave : Delays → (queue w : ℕ) → Delays × Error
queue_leave s queue w = on_queue s (get_elem? s.queues queue) λ ws.
    if mem w ws
    then (
      record (put_work s w (record (s.works w) { queue = 0; on_queued = false })) {
        queues = set s.queues queue (without w ws);
      },
      eok,
    )
    else (s, enosrch)

-- `NX_IRQ_DelayWorkHandle`
unfoldable pub work_handle : Delays → (w : ℕ) → Delays × Error
work_handle s w =
    let work = s.works w in
    if not work.on_queued || leb queue_nr work.queue then (s, efault) else (
      record (put_work s w (record work { pending = true })) {
        event = set s.event work.queue true;
      },
      eok,
    )

-- `IRQ_DelayWorkCheck`
unfoldable pub work_check : Delays → ℕ → Delays
work_check s w =
    let work = s.works w in
    if work.pending
    then record (put_work s w (record work { pending = false })) {
      calls = s.calls ++ record { work = w; enabled = s.enabled || not work.noreenter } ∷ [];
      enabled = s.enabled && work.noreenter;
    }
    else s

-- The inner loop of `NX_IRQ_DelayQueueCheck`.
unfoldable pub check_works : Delays → List ℕ → Delays
unfolding work_check
check_works s [] = s
check_works s (w ∷ ws) = check_works (work_check s w) ws

-- The loop over the queues, for the queues and bits from some queue on.
unfoldable pub check_queues : Delays → List (List ℕ) → List Bool → Delays
unfolding check_works
check_queues s [] es = s
check_queues s (q ∷ qs) [] = s
check_queues s (q ∷ qs) (e ∷ es) = check_queues (if e then check_works s q else s) qs es

abbrev pub any_event : List Bool → Bool
any_event [] = false
any_event (e ∷ es) = e || any_event es

-- `NX_IRQ_DelayQueueCheck` with as many rounds left as NX_IRQ_DELAY_WORK_CHECK_TIMES.
unfoldable pub queue_check : (times : ℕ) → Delays → Delays
unfolding check_queues
queue_check zero s = s
queue_check (suc times) s =
    let clear = record s { event = replicate queue_nr false } in
    let next =
      queue_check times (record (check_queues (record clear { enabled = true }) s.queues s.event) {
        enabled = false;
      }) in
    if any_event s.event then next else clear

-- NX_IRQ_DELAY_WORK_CHECK_TIMES
abbrev pub check_times : ℕ
check_times = 5
