-- ===== src/Provisioning/Senders.antt =====
-- The senders that wait for a channel, and what is left of one that leaves the map.
use mathlib.Core.Option
use matrix_bridge_discord.Prelude.{
  ℕ, ◌<◌, suc, List, [], ◌∷◌, ◌++◌, String, Bool, true, false, Option, none, some, ◌≡◌, ◌≢◌, ◌⊎◌,
  inl, inr, refl, sym, ap, ◌∙◌, arith, ok, err, eqb, eqb_iff, if◌then◌else◌, length, Option-cases,
  Bool-cases, eq_iff, ◌==◌,
}
use matrix_bridge_discord.HashMap
use matrix_bridge_discord.HashMap.{string_eq}
use matrix_bridge_discord.HashMap.Laws.{get-remove}
use matrix_bridge_discord.Provisioning.{
  timed_out, declined, delivery_failed, cancelled, Progress, sending, waiting, timing_out, returned,
  Inbox, empty, dropped, decided, Request, ProvisioningCoordinator, nth, modify, settle,
}

pub nth-modify :
    (f : Request → Request) (n m : ℕ) (rs : List Request)
    → nth (modify f n rs) m ≡ (if eqb n m then Option.map f (nth rs m) else nth rs m)
nth-modify f n m [] = ground arith
nth-modify f ℕ.zero ℕ.zero (r ∷ rs) = refl
nth-modify f ℕ.zero (ℕ.suc m) (r ∷ rs) = ground arith
nth-modify f (ℕ.suc n) ℕ.zero (r ∷ rs) = ground arith
nth-modify f (ℕ.suc n) (ℕ.suc m) (r ∷ rs) = ground (arith, nth-modify f n m rs)

pub nth-concat :
    (rs : List Request) (r : Request) (m : ℕ)
    → nth (rs ++ r ∷ []) m ≡ (if eqb (length rs) m then some r else nth rs m)
nth-concat [] r ℕ.zero = refl
nth-concat [] r (ℕ.suc m) = ground arith
nth-concat (q ∷ rs) r ℕ.zero = ground arith
nth-concat (q ∷ rs) r (ℕ.suc m) = ground (arith, nth-concat rs r m)

pub lt_length_of_nth : (rs : List Request) (r : Request) (m : ℕ) → nth rs m ≡ some r → m < length rs
lt_length_of_nth [] r m h = ground arith
lt_length_of_nth (q ∷ rs) r ℕ.zero h = omega arith
lt_length_of_nth (q ∷ rs) r (ℕ.suc m) h = omega (arith, lt_length_of_nth rs r m h)

length-modify :
    (f : Request → Request) (n : ℕ) (rs : List Request) → length (modify f n rs) ≡ length rs
length-modify f n [] = refl
length-modify f ℕ.zero (r ∷ rs) = refl
length-modify f (ℕ.suc n) (r ∷ rs) = ap suc (length-modify f n rs)

pub length-settle :
    (i : Inbox) (o : Option ℕ) (rs : List Request) → length (settle i o rs) ≡ length rs
length-settle i none rs = refl
length-settle i (some n) rs = length-modify _ n rs

abbrev pub inbox_of : ProvisioningCoordinator → ℕ → Option Inbox
inbox_of c n = Option.map (λ r. r.inbox) (nth c.requests n)

-- What a returned request found. One that timed out may have been decided after its time was over.
abbrev pub Told : Progress → Inbox → Type 0
Told sending i = Unit
Told waiting i = Unit
Told timing_out i = Unit
Told (returned (ok _)) i = i ≡ decided true
Told (returned (err declined)) i = i ≡ decided false
Told (returned (err cancelled)) i = i ≡ dropped
Told (returned (err timed_out)) i = i ≢ empty
Told (returned (err delivery_failed)) i = Unit

-- The sender that waits for a channel belongs to a request for the channel with an empty inbox, a
-- request with an empty inbox has its sender waiting, and what a request returned is what it found.
pub record IsValid (c : ProvisioningCoordinator) : Type 0 where
  pub owned :
      (channel : String) (n : ℕ)
      → HashMap.get channel c.pending ≡ some n
      → (r : Request) × (nth c.requests n ≡ some r) × (r.channel ≡ channel) × (r.inbox ≡ empty)
  pub held :
      (n : ℕ) (r : Request)
      → nth c.requests n ≡ some r
      → r.inbox ≡ empty
      → HashMap.get r.channel c.pending ≡ some n
  pub told : (n : ℕ) (r : Request) → nth c.requests n ≡ some r → Told r.progress r.inbox

abbrev pub with_inbox : Inbox → Request → Request
with_inbox i r = record r { inbox = i }

abbrev pub owns : Option ℕ → ℕ → Bool
owns none n = false
owns (some m) n = eqb m n

pub nth-settle :
    (i : Inbox) (o : Option ℕ) (n : ℕ) (rs : List Request)
    → nth (settle i o rs) n ≡ (if owns o n then Option.map (with_inbox i) (nth rs n) else nth rs n)
nth-settle i none n rs = refl
nth-settle i (some m) n rs = nth-modify _ m n rs

pub mapped :
    (f : Request → Request) (o : Option Request) (r : Request)
    → Option.map f o ≡ some r
    → (q : Request) × (o ≡ some q) × (r ≡ f q)
mapped f none r h = ground arith
mapped f (some q) r h = (q, refl, ground arith)

-- A sender leaves the map when it is used or dropped.
abbrev pub taken : ProvisioningCoordinator → String → Inbox → ProvisioningCoordinator
taken c channel i = record c {
  pending = HashMap.remove channel c.pending;
  requests = settle i (HashMap.get channel c.pending) c.requests;
}

pub owns_iff : (o : Option ℕ) (n : ℕ) → owns o n ≡ true → o ≡ some n
owns_iff none n h = ground arith
owns_iff (some m) n h = ground (arith, eqb_iff m n)

Told-any : (p : Progress) (i : Inbox) → Told p empty → i ≢ empty → Told p i
Told-any sending i t h = tt
Told-any waiting i t h = tt
Told-any timing_out i t h = tt
Told-any (returned (ok _)) i t h = ground arith
Told-any (returned (err declined)) i t h = ground arith
Told-any (returned (err cancelled)) i t h = ground arith
Told-any (returned (err timed_out)) i t h = h
Told-any (returned (err delivery_failed)) i t h = tt

pub settle-cases :
    (i : Inbox) (o : Option ℕ) (n : ℕ) (rs : List Request) (r : Request)
    → nth (settle i o rs) n ≡ some r
    → ((owns o n ≡ true) × (q : Request) × (nth rs n ≡ some q) × (r ≡ with_inbox i q))
      ⊎ ((owns o n ≡ false) × (nth rs n ≡ some r))
settle-cases i o n rs r h = elim (Bool-cases (owns o n)) [
  | inl e ↦
      let (q, at_n, same) = mapped (with_inbox i) (nth rs n) r (rw (nth-settle, e) at h) in
      inl (e, q, at_n, same)
  | inr e ↦ inr (e, rw (nth-settle, e) at h)
]

pub Told-unread :
    {q p : Request}
    → some q ≡ some p
    → p.inbox ≡ empty
    → Told p.progress p.inbox
    → Told q.progress empty
Told-unread {q} {p} h unread t = let same : q ≡ p = ground arith in rw same (rw unread at t)

module _ (c : ProvisioningCoordinator) (channel : String) (v : IsValid c) where
  taken_channel :
      (n : ℕ) (r : Request)
      → nth c.requests n ≡ some r
      → r.inbox ≡ empty
      → (r.channel == channel) ≡ owns (HashMap.get channel c.pending) n
  taken_channel n r h e = elim (Option-cases (HashMap.get channel c.pending)) [
    | inl none_owned ↦ rw none_owned (ground (arith, v.held n r h e, eq_iff r.channel channel))
    | inr (m, owned) ↦
        let (q, at_m, same, _) = v.owned channel m owned in
        rw owned (ground (arith, v.held n r h e, eq_iff r.channel channel, eqb_iff m n))
  ]

  pub taken_other :
      (ch : String) (n : ℕ)
      → HashMap.get ch (HashMap.remove channel c.pending) ≡ some n
      → ((channel == ch) ≡ false) × (HashMap.get ch c.pending ≡ some n)
  taken_other ch n h = ground (arith, h, get-remove channel ch c.pending)

  nth-taken :
      (i : Inbox) (n : ℕ) (r : Request) {ch : String}
      → (channel == ch) ≡ false
      → r.channel ≡ ch
      → r.inbox ≡ empty
      → nth c.requests n ≡ some r
      → nth (taken c channel i).requests n ≡ some r
  nth-taken i n r other same unread at_n =
      rw (nth-settle, ← taken_channel n r at_n unread)
        (ground (arith, eq_iff r.channel channel, eq_iff channel r.channel))

  taken_held :
      (i : Inbox)
      → i ≢ empty
      → (n : ℕ) (r : Request) → nth (taken c channel i).requests n ≡ some r
      → r.inbox ≡ empty
      → HashMap.get r.channel (HashMap.remove channel c.pending) ≡ some n
  taken_held i full n r h unread =
      elim (settle-cases i (HashMap.get channel c.pending) n c.requests r h) [
        | inl (_, q, _, e) ↦ absurd (full (ap (λ (x : Request). x.inbox) (sym e) ∙ unread))
        | inr (apart, at_n) ↦ ground (
          arith,
          get-remove channel r.channel c.pending,
          v.held n r at_n unread,
          taken_channel n r at_n unread,
          eq_iff r.channel channel,
          eq_iff channel r.channel,
        )
      ]

  taken-Told :
      (i : Inbox)
      → i ≢ empty
      → (n : ℕ) (r : Request) → nth (taken c channel i).requests n ≡ some r
      → Told r.progress r.inbox
  taken-Told i full n r h = elim (settle-cases i (HashMap.get channel c.pending) n c.requests r h) [
    | inl (owned, q, at_n, e) ↦
        let (p, at_n', _, unread) = v.owned channel n (owns_iff _ n owned) in
        rw e (Told-any q.progress i (Told-unread (sym at_n ∙ at_n') unread (v.told n p at_n')) full)
    | inr (apart, at_n) ↦ v.told n r at_n
  ]

  pub taken-IsValid : (i : Inbox) → i ≢ empty → IsValid (taken c channel i)
  taken-IsValid i full = record {
    owned = λ ch n h.
        let before = taken_other ch n h in
        let (r, at_n, same, unread) = v.owned ch n before.1 in
        (r, nth-taken i n r before.0 same unread at_n, same, unread);
    held = λ n r h k. taken_held i full n r h k;
    told = λ n r h. taken-Told i full n r h;
  }
