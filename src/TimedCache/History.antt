-- ===== src/TimedCache/History.antt =====
-- The cache against its history: a lookup finds the last value that was inserted for the key and
-- not removed since, for as long as the time to live.
use matrix_bridge_discord.Prelude.{
  ℕ, ◌≤◌, List, [], ◌∷◌, Option, none, some, ◌≡◌, refl, arith, if◌then◌else◌, ◌>>=◌, ◌∙◌,
}
use matrix_bridge_discord.HashMap
use matrix_bridge_discord.HashMap.{Eq}
use matrix_bridge_discord.TimedCache.{
  TimedValue, TimedCache, fresh_value, get, insert, remove, clear, cleanup_expired, new, Op,
  inserts, removes, clears, cleans, step, run,
}
use matrix_bridge_discord.TimedCache.Lookup.{
  IsValid, get-insert_if, get-remove_if, get-clear, get-cleanup_expired, step-IsValid,
}

-- The operations come in the order of the clock, none before `from`, and `now` is no earlier.
abbrev pub Ordered {ℓ κ} : {K : Type ℓ} {V : Type κ} → ℕ → List (ℕ × Op K V) → ℕ → Type 0
Ordered from [] now = from ≤ now
Ordered from ((at_time, op) ∷ ops) now = (from ≤ at_time) × Ordered at_time ops now

module _ {ℓ κ} {K : Type ℓ} {V : Type κ} ⦃e : Eq K⦄ where
  -- What was last written for each key, with no thought of expiry.
  abbrev pub note : (K → Option (TimedValue V)) → ℕ → Op K V → K → Option (TimedValue V)
  note f now (inserts k v) j =
      if e.beq k j then some (record { value = v; inserted_at = now }) else f j
  note f now (removes k) j = if e.beq k j then none else f j
  note f now clears j = none
  note f now cleans j = f j

  abbrev pub history : (K → Option (TimedValue V)) → List (ℕ × Op K V) → K → Option (TimedValue V)
  history f [] j = f j
  history f ((now, op) ∷ ops) j = history (note f now op) ops j

  -- From `t` on, the cache answers as what was written does.
  record Agrees (ttl t : ℕ) (c : TimedCache K V) (f : K → Option (TimedValue V))
      : Type (ℓ ⊔ κ) where
    valid : IsValid c
    same_ttl : c.ttl ≡ ttl
    answers : (k : K) (now : ℕ) → t ≤ now → get c k now ≡ (f k >>= fresh_value ttl now)

  step-ttl : (c : TimedCache K V) (now : ℕ) (op : Op K V) → (step c now op).ttl ≡ c.ttl
  unfolding step insert remove clear cleanup_expired
  step-ttl c now (inserts k v) = refl
  step-ttl c now (removes k) = refl
  step-ttl c now clears = refl
  step-ttl c now cleans = refl

  step-answers :
      (ttl t s : ℕ) (c : TimedCache K V) (f : K → Option (TimedValue V)) (op : Op K V)
      → Agrees ttl t c f
      → t ≤ s
      → (k : K) (now : ℕ) → s ≤ now
      → get (step c s op) k now ≡ (note f s op k >>= fresh_value ttl now)
  unfolding step
  step-answers ttl t s c f (inserts j v) a h k now h' =
      get-insert_if c j k v s now ∙ ground (arith, a.same_ttl, a.answers k now (omega arith))
  step-answers ttl t s c f (removes j) a h k now h' =
      get-remove_if c j k now ∙ ground (arith, a.answers k now (omega arith))
  step-answers ttl t s c f clears a h k now h' = get-clear c k now
  step-answers ttl t s c f cleans a h k now h' =
      get-cleanup_expired c k s now a.valid h' ∙ a.answers k now (omega arith)

  run-answers :
      (ttl t : ℕ) (c : TimedCache K V) (f : K → Option (TimedValue V)) (ops : List (ℕ × Op K V))
      → Agrees ttl t c f
      → (k : K) (now : ℕ) → Ordered t ops now
      → get (run c ops) k now ≡ (history f ops k >>= fresh_value ttl now)
  unfolding run
  run-answers ttl t c f [] a k now h = a.answers k now h
  run-answers ttl t c f ((s, op) ∷ ops) a k now (h, hs) =
      run-answers ttl s (step c s op) (note f s op) ops
        (record {
          valid = step-IsValid c s op a.valid;
          same_ttl = step-ttl c s op ∙ a.same_ttl;
          answers = step-answers ttl t s c f op a h;
        })
        k now hs

  new-Agrees : (ttl : ℕ) → Agrees ttl 0 (new ttl) (λ _. none)
  unfolding new get HashMap.get
  new-Agrees ttl = record { valid = tt; same_ttl = refl; answers = λ k now h. refl }

  -- After any operations in the order of the clock, a lookup gives the value that was last written
  -- for the key, if it is younger than the time to live. Cleaning up never shows.
  pub get-run :
      (ttl : ℕ) (ops : List (ℕ × Op K V)) (k : K) (now : ℕ)
      → Ordered 0 ops now
      → get (run (new ttl) ops) k now ≡ (history (λ _. none) ops k >>= fresh_value ttl now)
  get-run ttl ops k now h = run-answers ttl 0 (new ttl) (λ _. none) ops (new-Agrees ttl) k now h
