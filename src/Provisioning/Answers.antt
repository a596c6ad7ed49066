-- ===== src/Provisioning/Answers.antt =====
-- Who answers a request: the decisions, and what the request returns.
use matrix_bridge_discord.Prelude.{
  ℕ, List, [], ◌∷◌, ◌++◌, String, Bool, true, false, Option, none, some, ◌≡◌, ◌≢◌, ◌⊎◌, inl, inr,
  refl, sym, ap, ◌∙◌, arith, ok, err, eqb, eqb_iff, if◌then◌else◌, length, Bool-cases, eq_refl,
  eq_iff, ◌==◌,
}
use matrix_bridge_discord.HashMap
use matrix_bridge_discord.HashMap.{string_eq}
use matrix_bridge_discord.HashMap.Laws.{get-insert, get-remove}
use matrix_bridge_discord.Provisioning.{
  timed_out, declined, delivery_failed, cancelled, Progress, sending, waiting, timing_out, returned,
  Inbox, empty, dropped, decided, Request, ProvisioningCoordinator, nth, modify, settle, ask,
  forget, delivered_at, awaited_at, polled_at, with_request, deliver, poll, mark_approval, Event,
  asks, delivers, polls, marks, step,
}
use matrix_bridge_discord.Provisioning.Senders.{
  nth-modify, nth-concat, lt_length_of_nth, length-settle, Told, IsValid, settle-cases, mapped,
  taken_other, taken-IsValid,
}

abbrev pub with_progress : Progress → Request → Request
with_progress p r = record r { progress = p }

progressed_nth :
    (p : Progress) (n m : ℕ) (rs : List Request) (r : Request)
    → nth (modify (with_progress p) n rs) m ≡ some r
    → (q : Request) × (nth rs m ≡ some q)
      × (r.inbox ≡ q.inbox)
      × (r.channel ≡ q.channel)
      × (((n ≡ m) × (r.progress ≡ p)) ⊎ (r.progress ≡ q.progress))
progressed_nth p n m rs r h = elim (Bool-cases (eqb n m)) [
  | inl e ↦
      let (q, at_m, same) = mapped (with_progress p) (nth rs m) r (rw (nth-modify, e) at h) in
      (
        q,
        at_m,
        ap (λ (x : Request). x.inbox) same,
        ap (λ (x : Request). x.channel) same,
        inl ((eqb_iff n m).0 e, ap (λ (x : Request). x.progress) same),
      )
  | inr e ↦ (r, rw (nth-modify, e) at h, refl, refl, inr refl)
]

-- Bookkeeping of one request.
progressed :
    (c : ProvisioningCoordinator) (n : ℕ) (p : Progress)
    → IsValid c
    → ((r : Request) → nth c.requests n ≡ some r → Told p r.inbox)
    → IsValid (record c { requests = modify (λ r. record r { progress = p }) n c.requests })
progressed c n p v t = record {
  owned = λ ch m h.
      let (r, at_m, same, unread) = v.owned ch m h in
      (
        if eqb n m then with_progress p r else r,
        rw (nth-modify, at_m) (ground arith),
        ground (arith, same),
        ground (arith, unread),
      );
  held = λ m r h e.
      let (q, at_m, inbox, channel, _) = progressed_nth p n m c.requests r h in
      rw channel (v.held m q at_m (sym inbox ∙ e));
  told = λ m r h.
      let (q, at_m, inbox, _, which) = progressed_nth p n m c.requests r h in
      elim which [
        | inl (here, e) ↦ rw (e, inbox) (t q (rw here at_m))
        | inr e ↦ rw (e, inbox) (v.told m q at_m)
      ];
}

-- What the list of requests holds after a request has joined.
asked_nth :
    (rs : List Request) (r q : Request) (n : ℕ)
    → nth (rs ++ r ∷ []) n ≡ some q
    → ((n ≡ length rs) × (q ≡ r)) ⊎ (nth rs n ≡ some q)
asked_nth rs r q n h = ground (arith, nth-concat rs r n, eqb_iff (length rs) n)

ask-IsValid : (c : ProvisioningCoordinator) (channel : String) → IsValid c → IsValid (ask c channel)
unfolding ask
ask-IsValid c channel v =
    let w = taken-IsValid c channel v dropped (λ e. ground arith) in
    let rs = settle dropped (HashMap.get channel c.pending) c.requests in
    let count = length-settle dropped (HashMap.get channel c.pending) c.requests in
    let fresh : Request = record { channel = channel; progress = sending; inbox = empty } in
    record {
      owned = λ ch n h. elim (Bool-cases (channel == ch)) [
        | inl e ↦ (
          fresh,
          ground (
            arith,
            get-insert channel ch (length c.requests) c.pending,
            nth-concat rs fresh n,
            eqb_iff (length rs) n,
          ),
          (eq_iff channel ch).0 e,
          refl,
        )
        | inr e ↦
            let (r, at_n, same, unread) = w.owned ch n (
              ground (
                arith,
                get-insert channel ch (length c.requests) c.pending,
                get-remove channel ch c.pending,
              )) in
            (r, ground (arith, nth-concat rs fresh n, lt_length_of_nth rs r n at_n), same, unread)
      ];
      held = λ n r h e. elim (asked_nth rs fresh r n h) [
        | inl (last, same) ↦ rw (same, get-insert, eq_refl, last, count) refl
        | inr before ↦
            let other = taken_other c channel v r.channel n (w.held n r before e) in
            ground
              (arith, get-insert channel r.channel (length c.requests) c.pending, other.0, other.1)
      ];
      told = λ n r h. elim (asked_nth rs fresh r n h) [
        | inl (last, same) ↦ rw same tt
        | inr before ↦ w.told n r before
      ];
    }

pub forget-IsValid :
    (c : ProvisioningCoordinator) (channel : String) → IsValid c → IsValid (forget c channel)
forget-IsValid c channel v = taken-IsValid c channel v dropped (λ e. ground arith)

deliver-IsValid :
    (c : ProvisioningCoordinator) (n : ℕ) (r : Request) (p : Progress) (sent : Bool)
    → IsValid c
    → IsValid (delivered_at c n r p sent)
deliver-IsValid c n r sending true v = progressed c n waiting v (λ q h. tt)
deliver-IsValid c n r sending false v =
    progressed (forget c r.channel) n (returned (err delivery_failed))
      (forget-IsValid c r.channel v) (λ q h. tt)
deliver-IsValid c n r waiting sent v = v
deliver-IsValid c n r timing_out sent v = v
deliver-IsValid c n r (returned _) sent v = v

-- A request does not keep its sender when its channel is forgotten.
forgotten :
    (c : ProvisioningCoordinator) (n : ℕ) (r q : Request)
    → IsValid c
    → nth c.requests n ≡ some r
    → nth (forget c r.channel).requests n ≡ some q
    → q.inbox ≢ empty
forgotten c n r q v at_n h = λ unread.
    elim (settle-cases dropped (HashMap.get r.channel c.pending) n c.requests q h) [
      | inl (_, x, _, same) ↦
          let gone : q.inbox ≡ dropped = ap (λ (y : Request). y.inbox) same in ground arith
      | inr (apart, here) ↦
          let own = v.held n q here unread in
          let same : q ≡ r = ground arith in ground (arith, rw same at own, eqb_iff n n)
    ]

same_inbox :
    {o : Option Request} {r q : Request} {i : Inbox}
    → o ≡ some r
    → o ≡ some q
    → r.inbox ≡ i
    → q.inbox ≡ i
same_inbox {r} {q} h k e = let same : r ≡ q = ground arith in rw (← same) e

await-IsValid :
    (c : ProvisioningCoordinator) (n : ℕ) (r : Request) (i : Inbox) (elapsed : Bool)
    → IsValid c
    → nth c.requests n ≡ some r
    → r.inbox ≡ i
    → IsValid (awaited_at c n r i elapsed)
await-IsValid c n r (decided true) elapsed v h e =
    progressed c n (returned (ok tt)) v (λ q k. same_inbox h k e)
await-IsValid c n r (decided false) elapsed v h e =
    progressed c n (returned (err declined)) v (λ q k. same_inbox h k e)
await-IsValid c n r dropped elapsed v h e =
    progressed c n (returned (err cancelled)) v (λ q k. same_inbox h k e)
await-IsValid c n r empty true v h e = progressed c n timing_out v (λ q k. tt)
await-IsValid c n r empty false v h e = v

poll-IsValid :
    (c : ProvisioningCoordinator) (n : ℕ) (r : Request) (p : Progress) (elapsed : Bool)
    → IsValid c
    → nth c.requests n ≡ some r
    → IsValid (polled_at c n r p elapsed)
poll-IsValid c n r sending elapsed v h = v
poll-IsValid c n r waiting elapsed v h = await-IsValid c n r r.inbox elapsed v h refl
poll-IsValid c n r timing_out elapsed v h =
    progressed (forget c r.channel) n (returned (err timed_out)) (forget-IsValid c r.channel v)
      (λ q k. forgotten c n r q v h k)
poll-IsValid c n r (returned _) elapsed v h = v

with_request-IsValid :
    (c : ProvisioningCoordinator) (o : Option Request) (f : Request → ProvisioningCoordinator)
    → IsValid c
    → ((r : Request) → o ≡ some r → IsValid (f r))
    → IsValid (with_request c o f)
with_request-IsValid c none f v k = v
with_request-IsValid c (some r) f v k = k r refl

-- Every event keeps this: the sender that waits for a channel belongs to a request for that channel
-- whose sender was neither used nor dropped, and every such request has its sender waiting; a
-- request that returned success was approved, one that was declined was so decided, the sender of one
-- that was cancelled was dropped, and the sender of one that timed out does not wait any more.
pub step-IsValid : (c : ProvisioningCoordinator) (e : Event) → IsValid c → IsValid (step c e)
unfolding step deliver poll mark_approval
step-IsValid c (asks channel) v = ask-IsValid c channel v
step-IsValid c (delivers n sent) v =
    with_request-IsValid c (nth c.requests n) _ v (λ r h. deliver-IsValid c n r r.progress sent v)
step-IsValid c (polls n elapsed) v =
    with_request-IsValid c (nth c.requests n) _ v (λ r h. poll-IsValid c n r r.progress elapsed v h)
step-IsValid c (marks channel allow) v =
    taken-IsValid c channel v (decided allow) (λ e. ground arith)
