-- ===== src/Provisioning/Decisions.antt =====
-- Where a decision comes from, and that it is final.
use mathlib.Core.Option
use matrix_bridge_discord.Prelude.{
  ℕ, List, String, Bool, true, false, Option, none, some, ◌≡◌, ◌⊎◌, ◌↔◌, inl, inr, refl, sym, ap,
  ◌∙◌, arith, Result, ok, err, eqb_iff, if◌then◌else◌, Option-cases, Bool-cases, eq_refl, ◌==◌,
}
use matrix_bridge_discord.HashMap
use matrix_bridge_discord.HashMap.{string_eq}
use matrix_bridge_discord.HashMap.Laws.{get-remove}
use matrix_bridge_discord.Provisioning.{
  applied, expired, ProvisioningError, timed_out, declined, delivery_failed, cancelled, Progress,
  sending, waiting, timing_out, returned, Inbox, empty, dropped, decided, Request,
  ProvisioningCoordinator, new, nth, modify, settle, ask, forget, return_request, delivered_at,
  awaited_at, polled_at, with_request, deliver, poll, has_pending_request, mark_approval, Event,
  asks, delivers, polls, marks, step,
}
use matrix_bridge_discord.Provisioning.Senders.{
  nth-modify, nth-concat, inbox_of, owns, owns_iff, nth-settle,
}
use matrix_bridge_discord.Provisioning.Answers.{with_progress}

inbox-settle :
    (i : Inbox) (o : Option ℕ) (n : ℕ) (rs : List Request)
    → Option.map (λ (r : Request). r.inbox) (nth (settle i o rs) n) ≡ (
        if owns o n
        then Option.map (λ (r : Request). i) (nth rs n)
        else Option.map (λ (r : Request). r.inbox) (nth rs n))
inbox-settle i o n rs = elim (Option-cases (nth rs n)) [
  | inl e ↦ rw (nth-settle, e) (ground arith)
  | inr (r, e) ↦ rw (nth-settle, e) (ground arith)
]

inbox-progress :
    (p : Progress) (m n : ℕ) (rs : List Request)
    → Option.map (λ (r : Request). r.inbox) (nth (modify (with_progress p) m rs) n)
      ≡ Option.map (λ (r : Request). r.inbox) (nth rs n)
inbox-progress p m n rs = elim (Option-cases (nth rs n)) [
  | inl e ↦ rw (nth-modify, e) (ground arith)
  | inr (r, e) ↦ rw (nth-modify, e) (ground arith)
]

chosen :
    (o : Option Request) (allow b : Bool)
    → Option.map (λ (r : Request). decided allow) o ≡ some (decided b)
    → allow ≡ b
chosen none allow b h = ground arith
chosen (some r) allow b h = ground arith

-- What the receiver of a request finds, before and after an event.
module _ (n : ℕ) (b : Bool) where
  -- The decision `b` of request `n` was there before.
  abbrev Kept : ProvisioningCoordinator → ProvisioningCoordinator → Type 0
  Kept c c' = inbox_of c' n ≡ some (decided b) → inbox_of c n ≡ some (decided b)

  forget-Kept : (c : ProvisioningCoordinator) (channel : String) → Kept c (forget c channel)
  forget-Kept c channel h = elim (Option-cases (nth c.requests n)) [
    | inl e ↦
        ground (arith, inbox-settle dropped (HashMap.get channel c.pending) n c.requests, h, e)
    | inr (r, e) ↦
        ground (arith, inbox-settle dropped (HashMap.get channel c.pending) n c.requests, h, e)
  ]

  return-Kept :
      (c : ProvisioningCoordinator) (m : ℕ) (result : Result ProvisioningError (Unit {0}))
      → Kept c (return_request c m result)
  return-Kept c m result h = sym (inbox-progress (returned result) m n c.requests) ∙ h

  delivered-Kept :
      (c : ProvisioningCoordinator) (m : ℕ) (r : Request) (p : Progress) (sent : Bool)
      → Kept c (delivered_at c m r p sent)
  delivered-Kept c m r sending true h = sym (inbox-progress waiting m n c.requests) ∙ h
  delivered-Kept c m r sending false h =
      forget-Kept c r.channel (return-Kept (forget c r.channel) m (err delivery_failed) h)
  delivered-Kept c m r waiting sent h = h
  delivered-Kept c m r timing_out sent h = h
  delivered-Kept c m r (returned _) sent h = h

  awaited-Kept :
      (c : ProvisioningCoordinator) (m : ℕ) (r : Request) (i : Inbox) (elapsed : Bool)
      → Kept c (awaited_at c m r i elapsed)
  awaited-Kept c m r (decided true) elapsed h = return-Kept c m (ok tt) h
  awaited-Kept c m r (decided false) elapsed h = return-Kept c m (err declined) h
  awaited-Kept c m r dropped elapsed h = return-Kept c m (err cancelled) h
  awaited-Kept c m r empty true h = sym (inbox-progress timing_out m n c.requests) ∙ h
  awaited-Kept c m r empty false h = h

  polled-Kept :
      (c : ProvisioningCoordinator) (m : ℕ) (r : Request) (p : Progress) (elapsed : Bool)
      → Kept c (polled_at c m r p elapsed)
  polled-Kept c m r sending elapsed h = h
  polled-Kept c m r waiting elapsed h = awaited-Kept c m r r.inbox elapsed h
  polled-Kept c m r timing_out elapsed h =
      forget-Kept c r.channel (return-Kept (forget c r.channel) m (err timed_out) h)
  polled-Kept c m r (returned _) elapsed h = h

  with_request-Kept :
      (c : ProvisioningCoordinator) (o : Option Request) (f : Request → ProvisioningCoordinator)
      → ((r : Request) → Kept c (f r))
      → Kept c (with_request c o f)
  with_request-Kept c none f k h = h
  with_request-Kept c (some r) f k h = k r h

  ask-Kept : (c : ProvisioningCoordinator) (channel : String) → Kept c (ask c channel)
  unfolding ask
  ask-Kept c channel h = forget-Kept c channel (
      ground (
        arith,
        nth-concat (settle dropped (HashMap.get channel c.pending) c.requests)
            (record { channel = channel; progress = sending; inbox = empty }) n,
        h,
      ))

  marked :
      (c : ProvisioningCoordinator) (channel : String) (allow : Bool)
      → inbox_of (mark_approval c channel allow).1 n ≡ some (decided b)
      → (inbox_of c n ≡ some (decided b)) ⊎ ((allow ≡ b) × (HashMap.get channel c.pending ≡ some n))
  unfolding mark_approval
  marked c channel allow h = elim (Bool-cases (owns (HashMap.get channel c.pending) n)) [
    | inl e ↦ inr (
      chosen (nth c.requests n) allow b (
          sym
            (inbox-settle (decided allow) (HashMap.get channel c.pending) n c.requests ∙ rw e refl)
          ∙ h),
      owns_iff _ n e,
    )
    | inr e ↦ inl (
        sym (inbox-settle (decided allow) (HashMap.get channel c.pending) n c.requests ∙ rw e refl)
        ∙ h)
  ]

  -- A request that is decided after an event was decided so before, or the event is the answer
  -- `mark_approval` for the channel for which the request's sender waits.
  pub step-decided :
      (c : ProvisioningCoordinator) (e : Event)
      → inbox_of (step c e) n ≡ some (decided b)
      → (inbox_of c n ≡ some (decided b))
        ⊎ ((channel : String) × (e ≡ marks channel b) × (HashMap.get channel c.pending ≡ some n))
  unfolding step deliver poll
  step-decided c (asks channel) h = inl (ask-Kept c channel h)
  step-decided c (delivers m sent) h =
      inl (with_request-Kept c (nth c.requests m) _ (λ r. delivered-Kept c m r r.progress sent) h)
  step-decided c (polls m elapsed) h =
      inl (with_request-Kept c (nth c.requests m) _ (λ r. polled-Kept c m r r.progress elapsed) h)
  step-decided c (marks channel allow) h = elim (marked c channel allow h) [
    | inl before ↦ inl before
    | inr (same, at_n) ↦ inr (channel, ap (marks channel) same, at_n)
  ]

-- An answer is applied exactly if a request waits for the channel; then none waits for it, other
-- channels keep theirs, and a second answer has expired.
pub mark_approval_twice :
    (c : ProvisioningCoordinator) (channel other : String) (allow again : Bool)
    → (((mark_approval c channel allow).0 ≡ applied) ↔ (has_pending_request c channel ≡ true))
      × (has_pending_request (mark_approval c channel allow).1 other
          ≡ (if channel == other then false else has_pending_request c other))
      × ((mark_approval (mark_approval c channel allow).1 channel again).0 ≡ expired)
unfolding mark_approval has_pending_request
mark_approval_twice c channel other allow again = (
  ground arith,
  ground (arith, get-remove channel other c.pending),
  ground (arith, get-remove channel channel c.pending, eq_refl channel),
)

-- A request whose prompt cannot be delivered takes with it whichever request waits for the channel:
-- also a newer one of another sender. The receiver of that one finds its sender dropped, and none
-- waits for the channel any more.
pub deliver-dropped :
    (c : ProvisioningCoordinator) (n m : ℕ) (old new : Request)
    → nth c.requests n ≡ some old
    → old.progress ≡ sending
    → HashMap.get old.channel c.pending ≡ some m
    → nth c.requests m ≡ some new
    → (inbox_of (deliver c n false) m ≡ some dropped)
      × (has_pending_request (deliver c n false) old.channel ≡ false)
unfolding deliver has_pending_request
deliver-dropped c n m old new at_n s waits at_m =
    rw (at_n, s)
      (
        inbox-progress (returned (err delivery_failed)) n m (forget c old.channel).requests
            ∙ inbox-settle dropped (HashMap.get old.channel c.pending) m c.requests
            ∙ rw (waits, at_m) (ground (arith, eqb_iff m m)),
        rw (get-remove, eq_refl) refl,
      )

abbrev pub progress_of : ProvisioningCoordinator → ℕ → Option Progress
progress_of c n = Option.map (λ r. r.progress) (nth c.requests n)

progress-return :
    (c : ProvisioningCoordinator) (n : ℕ) (result : Result ProvisioningError (Unit {0}))
    → (r : Request) → nth c.requests n ≡ some r
    → progress_of (return_request c n result) n ≡ some (returned result)
progress-return c n result r h = rw (nth-modify, h) (ground (arith, eqb_iff n n))

-- An answer that comes after the time of a request is over, but before the request has locked the
-- map, is said to be applied, also an approval; the request returns that it timed out all the same.
pub mark_approval-timing_out :
    (c : ProvisioningCoordinator) (n : ℕ) (r : Request) (allow elapsed : Bool)
    → nth c.requests n ≡ some r
    → r.progress ≡ timing_out
    → HashMap.get r.channel c.pending ≡ some n
    → ((mark_approval c r.channel allow).0 ≡ applied)
      × (inbox_of (mark_approval c r.channel allow).1 n ≡ some (decided allow))
      × (progress_of (poll (mark_approval c r.channel allow).1 n elapsed) n
          ≡ some (returned (err timed_out)))
unfolding mark_approval poll
mark_approval-timing_out c n r allow elapsed at_n late waits =
    let c' = (mark_approval c r.channel allow).1 in
    let marked_at : nth c'.requests n ≡ some (record r { inbox = decided allow }) =
      rw waits (rw (nth-modify, at_n) (ground (arith, eqb_iff n n))) in
    let forgot : HashMap.get r.channel c'.pending ≡ none = rw (get-remove, eq_refl) refl in
    (
      rw waits refl,
      ap (Option.map (λ (q : Request). q.inbox)) marked_at,
      rw (marked_at, late)
          (progress-return (forget c' r.channel) n (err timed_out)
            (record r { inbox = decided allow }) (rw forgot marked_at)),
    )
