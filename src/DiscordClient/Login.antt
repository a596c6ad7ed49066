-- ===== src/DiscordClient/Login.antt =====
-- One gateway runs at most, the end of a gateway is not seen, and the start ends with the first attempt that succeeds.
use native.Mathlib.Nat.{pow-succ'}
use matrix_bridge_discord.Prelude.{
  ℕ, suc, ◌+◌, ◌*◌, ◌^◌, ◌<◌, List, [], ◌∷◌, String, Bool, true, false, not, Option, none, some,
  ◌≡◌, refl, sym, ap, ◌∙◌, subst, arith, if◌then◌else◌, ok, err, eqb, eqb_iff, ltb, retain,
  Bool-cases, inl, inr, ◌⊎◌,
}
use matrix_bridge_discord.DiscordClient.{
  Attempt, unbuildable, exited, silent, ready, DiscordClient, attempt, login, stop, next_retry,
  abort_task, attempts, start, Event, logs_in, stops, gateway_ends, step, run,
}

-- The tasks that run are the one that the client holds, or none.
abbrev pub RunsAtMost : ℕ → List ℕ → Type 0
RunsAtMost task running = (running ≡ task ∷ []) ⊎ (running ≡ [])

abbrev pub HoldsTask : Bool → Option ℕ → List ℕ → ℕ → Type 0
HoldsTask true (some task) running spawned = RunsAtMost task running × (task < spawned)
HoldsTask true none running spawned = ⊥
HoldsTask false none running spawned = running ≡ []
HoldsTask false (some task) running spawned = ⊥

abbrev pub IsValid : DiscordClient → Type 0
IsValid c = HoldsTask c.is_logged_in c.gateway_task c.running c.spawned

idle :
    (b : Bool) (t : Option ℕ) (l : List ℕ) (n : ℕ)
    → HoldsTask b t l n
    → b ≡ false
    → (t ≡ none) × (l ≡ [])
idle false none l n h e = (refl, h)
idle true (some t) l n h e = ground arith
idle false (some t) l n h e = elim h [ ]
idle true none l n h e = elim h [ ]

holds :
    (b : Bool) (t : Option ℕ) (l : List ℕ) (n : ℕ)
    → HoldsTask b t l n
    → b ≡ true
    → (task : ℕ) × (t ≡ some task) × RunsAtMost task l
holds true (some t) l n h e = (t, refl, h.0)
holds false none l n h e = ground arith
holds false (some t) l n h e = elim h [ ]
holds true none l n h e = elim h [ ]

eqb_refl : (n : ℕ) → eqb n n ≡ true
eqb_refl n = (eqb_iff n n).1 refl

-- An attempt of a client that is not logged in.
attempt-IsValid :
    (c : DiscordClient) (a : Attempt)
    → c.is_logged_in ≡ false
    → c.gateway_task ≡ none
    → c.running ≡ []
    → IsValid (attempt c a).1
attempt-IsValid c (unbuildable _) b t l = rw (b, t, l) refl
attempt-IsValid c exited b t l = rw (b, t, l, eqb_refl) refl
attempt-IsValid c silent b t l = rw (b, t, l, eqb_refl) refl
attempt-IsValid c (ready true) b t l = (inl (rw l refl), omega arith)
attempt-IsValid c (ready false) b t l = (inl (rw l refl), omega arith)

if-IsValid :
    {A : Type 0} (f : A → DiscordClient) (b : Bool) (x y : A)
    → (b ≡ true → IsValid (f x))
    → (b ≡ false → IsValid (f y))
    → IsValid (f (if b then x else y))
if-IsValid f true x y hx hy = hx refl
if-IsValid f false x y hx hy = hy refl

login-IsValid : (c : DiscordClient) (a : Attempt) → IsValid c → IsValid (login c a).1
unfolding login
login-IsValid c a v =
    if-IsValid (λ r. r.1) c.is_logged_in (ok tt, c) (attempt c a) (λ _. v)
      (λ off.
        let (t, l) = idle c.is_logged_in c.gateway_task c.running c.spawned v off in
        attempt-IsValid c a off t l)

abort_task-IsValid :
    (c : DiscordClient) (t : Option ℕ) (task : ℕ)
    → t ≡ some task
    → RunsAtMost task c.running
    → IsValid (record (abort_task t c) { is_logged_in = false })
abort_task-IsValid c none task e l = ground arith
abort_task-IsValid c (some t) task e l =
    let same : t ≡ task = ground arith in
    elim l [ inl one ↦ rw (one, same, eqb_refl) refl | inr gone ↦ rw gone refl ]

stop-IsValid : (c : DiscordClient) → IsValid c → IsValid (stop c)
unfolding stop
stop-IsValid c v =
    if-IsValid (λ d. d) (not c.is_logged_in) c
      (record (abort_task c.gateway_task c) { is_logged_in = false }) (λ _. v)
      (λ e.
        let (task, t, l) =
          holds c.is_logged_in c.gateway_task c.running c.spawned v (ground arith) in
        abort_task-IsValid c c.gateway_task task t l)

RunsAtMost-retain :
    (task ended : ℕ) (l : List ℕ)
    → RunsAtMost task l
    → RunsAtMost task (retain (λ t. not (eqb t ended)) l)
RunsAtMost-retain task ended l (inr gone) = inr (rw gone refl)
RunsAtMost-retain task ended l (inl one) = elim (Bool-cases (eqb task ended)) [
  | inl same ↦ inr (rw (one, same) refl)
  | inr other ↦ inl (rw (one, other) refl)
]

HoldsTask-retain :
    (b : Bool) (t : Option ℕ) (l : List ℕ) (n ended : ℕ)
    → HoldsTask b t l n
    → HoldsTask b t (retain (λ s. not (eqb s ended)) l) n
HoldsTask-retain true (some task) l n ended (h, k) = (RunsAtMost-retain task ended l h, k)
HoldsTask-retain false none l n ended h = rw h refl
HoldsTask-retain true none l n ended h = elim h [ ]
HoldsTask-retain false (some task) l n ended h = elim h [ ]

step-IsValid : (c : DiscordClient) (e : Event) → IsValid c → IsValid (step c e)
step-IsValid c (logs_in a) v = login-IsValid c a v
step-IsValid c stops v = stop-IsValid c v
step-IsValid c (gateway_ends task) v =
    HoldsTask-retain c.is_logged_in c.gateway_task c.running c.spawned task v

-- Whatever attempts to log in, stops and ends of gateways come in whatever order, if it held before:
-- a client that is logged in holds a gateway task, and no other gateway runs than this one; while it
-- is not logged in, no gateway runs and it holds no task.
pub run-IsValid : (c : DiscordClient) (events : List Event) → IsValid c → IsValid (run c events)
run-IsValid c [] v = v
run-IsValid c (e ∷ events) v = run-IsValid (step c e) events (step-IsValid c e v)

RunsAtMost-ended :
    (task : ℕ) (l : List ℕ) → RunsAtMost task l → retain (λ t. not (eqb t task)) l ≡ []
RunsAtMost-ended task l (inl one) = rw (one, eqb_refl) refl
RunsAtMost-ended task l (inr gone) = rw gone refl

-- When the gateway of the task that a valid client holds while it is logged in ends by itself, no
-- gateway runs any more; a later `login`, whatever an attempt would give, answers with success, and
-- still no gateway runs.
login-gateway_ends :
    (c : DiscordClient) (task : ℕ) (a : Attempt)
    → IsValid c
    → c.is_logged_in ≡ true
    → c.gateway_task ≡ some task
    → ((step c (gateway_ends task)).running ≡ [])
      × ((login (step c (gateway_ends task)) a).0 ≡ ok tt)
      × ((login (step c (gateway_ends task)) a).1.running ≡ [])
unfolding login
login-gateway_ends c task a v on held =
    let (t, same, l) = holds c.is_logged_in c.gateway_task c.running c.spawned v on in
    let it : t ≡ task = ground arith in
    let ended = RunsAtMost-ended task c.running (rw it at l) in rw on (ended, refl, ended)

abbrev pub Fails : Attempt → Type 0
Fails (ready _) = ⊥
Fails _ = Unit

abbrev pub Succeeds : Attempt → Type 0
Succeeds (ready _) = Unit
Succeeds _ = ⊥

-- The seconds before attempt `k + 1`: they double from 2 on, up to 300.
abbrev pub wait_before : ℕ → ℕ
wait_before k = if ltb (2 ^ (k + 1)) 300 then 2 ^ (k + 1) else 300

abbrev pub waits_from : ℕ → ℕ → List ℕ
waits_from k ℕ.zero = []
waits_from k (ℕ.suc n) = wait_before k ∷ waits_from (suc k) n

abbrev capped : ℕ → ℕ
capped x = if ltb x 300 then x else 300

next_retry-capped : (x : ℕ) → next_retry (capped x) ≡ capped (x * 2)
next_retry-capped x = ground arith

next_retry-wait_before : (k : ℕ) → next_retry (wait_before k) ≡ wait_before (suc k)
next_retry-wait_before k =
    let later : suc k + 1 ≡ suc (k + 1) = omega arith in
    let power : 2 ^ suc (k + 1) ≡ 2 * 2 ^ (k + 1) = pow-succ' 2 (k + 1) in
    let doubled : 2 ^ (k + 1) * 2 ≡ 2 ^ (suc k + 1) = rw later (omega (arith, power)) in
    next_retry-capped (2 ^ (k + 1)) ∙ ap capped doubled

-- An attempt that fails leaves the client out.
attempt-Fails :
    (c : DiscordClient) (a : Attempt)
    → Fails a
    → c.is_logged_in ≡ false
    → (e : String) × ((login c a).0 ≡ err e) × ((login c a).1.is_logged_in ≡ false)
unfolding login
attempt-Fails c (unbuildable _) f off = rw off (_, refl, refl)
attempt-Fails c exited f off = rw off (_, refl, refl)
attempt-Fails c silent f off = rw off (_, refl, refl)
attempt-Fails c (ready b) f off = elim f [ ]

attempt-Succeeds :
    (c : DiscordClient) (a : Attempt)
    → Succeeds a
    → c.is_logged_in ≡ false
    → ((login c a).0 ≡ ok tt) × ((login c a).1.is_logged_in ≡ true)
unfolding login
attempt-Succeeds c (ready true) f off = rw off (refl, refl)
attempt-Succeeds c (ready false) f off = rw off (refl, refl)
attempt-Succeeds c (unbuildable _) f off = elim f [ ]
attempt-Succeeds c exited f off = elim f [ ]
attempt-Succeeds c silent f off = elim f [ ]

module _ (gateway : ℕ → Attempt) (m : ℕ) where
  attempts_lem :
      (n fuel k : ℕ) (c : DiscordClient) (retry : ℕ)
      → k + n ≡ m
      → n < fuel
      → c.is_logged_in ≡ false
      → retry ≡ wait_before k
      → Succeeds (gateway m)
      → ((j : ℕ) → j < m → Fails (gateway j))
      → (c' : DiscordClient) × (attempts fuel gateway k c retry ≡ some (c', waits_from k n))
        × (c'.is_logged_in ≡ true)
  attempts_lem n ℕ.zero k c retry e enough off same good bad =
      let none_left : ⊥ = omega (arith, enough) in elim none_left [ ]
  attempts_lem ℕ.zero (ℕ.suc fuel) k c retry e enough off same good bad =
      let here : k ≡ m = omega arith in
      let (said, on) =
        attempt-Succeeds c (gateway k) (subst (λ j. Succeeds (gateway j)) (sym here) good) off in
      ((login c (gateway k)).1, rw (attempts, said) refl, on)
  attempts_lem (ℕ.suc n) (ℕ.suc fuel) k c retry e enough off same good bad =
      let (text, said, still) = attempt-Fails c (gateway k) (bad k (omega arith)) off in
      let (c', later, on) =
        attempts_lem n fuel (suc k) (login c (gateway k)).1 (next_retry retry) (omega arith)
          (omega arith) still (ap next_retry same ∙ next_retry-wait_before k) good bad in
      (c', rw (attempts, said, later, same) refl, on)

  -- The start ends with the first attempt that is answered by `Ready`: the client is logged in, and
  -- has waited before each later attempt, first 2 seconds, then twice as long each time, but
  -- 300 seconds at most. As many attempts as there are failures before, and one more, are enough.
  pub start-waits :
      (c : DiscordClient)
      → c.is_logged_in ≡ false
      → Succeeds (gateway m)
      → ((j : ℕ) → j < m → Fails (gateway j))
      → (c' : DiscordClient) × (start (suc m) gateway c ≡ some (c', waits_from 0 m))
        × (c'.is_logged_in ≡ true)
  unfolding start
  start-waits c off good bad =
      attempts_lem m (suc m) 0 c 2 (omega arith) (omega arith) off refl good bad
