-- ===== src/TimedCache/Lookup.antt =====
-- What a lookup finds after each operation.
use matrix_bridge_discord.Prelude.{
  ℕ, ◌≤◌, ◌-◌, Option, none, some, ◌≡◌, refl, arith, ltb, if◌then◌else◌, ◌>>=◌,
}
use matrix_bridge_discord.HashMap
use matrix_bridge_discord.HashMap.{Eq, HasDistinctKeys}
use matrix_bridge_discord.HashMap.Laws.{
  get-insert, get-remove, get-retain, keep, insert-HasDistinctKeys, remove-HasDistinctKeys,
  retain-HasDistinctKeys,
}
use matrix_bridge_discord.TimedCache.{
  TimedValue, TimedCache, is_fresh, fresh_value, get, insert, remove, clear, cleanup_expired, Op,
  inserts, removes, clears, cleans, step,
}

still_fresh {κ} :
    {V : Type κ} (ttl t now : ℕ) (o : Option (TimedValue V))
    → t ≤ now
    → (keep (is_fresh ttl t) o >>= fresh_value ttl now) ≡ (o >>= fresh_value ttl now)
still_fresh ttl t now none h = refl
still_fresh ttl t now (some tv) h = ground arith

module _ {ℓ κ} {K : Type ℓ} {V : Type κ} ⦃e : Eq K⦄ where
  abbrev pub IsValid : TimedCache K V → Type 0
  IsValid c = HasDistinctKeys c.entries

  pub get-insert_if :
      (c : TimedCache K V) (k j : K) (v : V) (t now : ℕ)
      → get (insert c k v t) j now
        ≡ (if e.beq k j then (if ltb (now - t) c.ttl then some v else none) else get c j now)
  unfolding get insert
  get-insert_if c k j v t now =
      ground (arith, get-insert k j (record { value = v; inserted_at = t }) c.entries)

  pub get-remove_if :
      (c : TimedCache K V) (k j : K) (now : ℕ)
      → get (remove c k).1 j now ≡ (if e.beq k j then none else get c j now)
  unfolding get remove
  get-remove_if c k j now = ground (arith, get-remove k j c.entries)

  pub get-clear : (c : TimedCache K V) (k : K) (now : ℕ) → get (clear c) k now ≡ none
  unfolding get clear HashMap.get
  get-clear c k now = refl

  -- To clean up changes no later lookup: what it drops has expired for good.
  pub get-cleanup_expired :
      (c : TimedCache K V) (k : K) (t now : ℕ)
      → IsValid c
      → t ≤ now
      → get (cleanup_expired c t) k now ≡ get c k now
  unfolding get cleanup_expired
  get-cleanup_expired c k t now v h =
      rw (get-retain (is_fresh c.ttl t) k c.entries v)
        (still_fresh c.ttl t now (HashMap.get k c.entries) h)

  -- Every operation keeps one entry at most for each key.
  pub step-IsValid :
      (c : TimedCache K V) (now : ℕ) (op : Op K V) → IsValid c → IsValid (step c now op)
  unfolding step insert remove clear cleanup_expired
  step-IsValid c now (inserts k v) h = insert-HasDistinctKeys k _ c.entries h
  step-IsValid c now (removes k) h = remove-HasDistinctKeys k c.entries h
  step-IsValid c now clears h = tt
  step-IsValid c now cleans h = retain-HasDistinctKeys _ c.entries h
