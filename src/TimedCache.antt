-- ===== src/TimedCache.antt =====
-- src/cache.rs: a cache whose entries expire. `Instant::now` is an argument of each operation, and
-- `elapsed` is the time since the insertion, 0 if the clock went back.
pub mod Lookup
pub mod History
mod Tests
use mathlib.Core.Option
use matrix_bridge_discord.Prelude.{
  ℕ, ◌-◌, List, [], ◌∷◌, Bool, Option, none, some, ltb, if◌then◌else◌, is_some, retain, length,
  is_nil, ◌>>=◌,
}
use matrix_bridge_discord.HashMap
use matrix_bridge_discord.HashMap.{Eq, HasDistinctKeys}

pub record TimedValue {ℓ} (V : Type ℓ) : Type ℓ where
  pub value : V
  pub inserted_at : ℕ

pub record TimedCache {ℓ κ} (K : Type ℓ) (V : Type κ) : Type (ℓ ⊔ κ) where
  pub entries : List (K × TimedValue V)
  pub ttl : ℕ

-- `tv.inserted_at.elapsed() < self.ttl`
abbrev pub is_fresh {κ} : {V : Type κ} → ℕ → ℕ → TimedValue V → Bool
is_fresh ttl now tv = ltb (now - tv.inserted_at) ttl

abbrev pub fresh_value {κ} : {V : Type κ} → ℕ → ℕ → TimedValue V → Option V
fresh_value ttl now tv = if is_fresh ttl now tv then some tv.value else none

module _ {ℓ κ} {K : Type ℓ} {V : Type κ} ⦃e : Eq K⦄ where
  unfoldable pub new : ℕ → TimedCache K V
  new ttl = record { entries = []; ttl = ttl }

  unfoldable pub get : TimedCache K V → K → ℕ → Option V
  get c key now = HashMap.get key c.entries >>= fresh_value c.ttl now

  unfoldable pub insert : TimedCache K V → K → V → ℕ → TimedCache K V
  insert c key value now = record c {
    entries = HashMap.insert key (record { value = value; inserted_at = now }) c.entries;
  }

  unfoldable pub remove : TimedCache K V → K → Option V × TimedCache K V
  remove c key = (
    Option.map (λ tv. tv.value) (HashMap.get key c.entries),
    record c { entries = HashMap.remove key c.entries },
  )

  unfoldable pub clear : TimedCache K V → TimedCache K V
  clear c = record c { entries = [] }

  unfoldable pub len : TimedCache K V → ℕ
  len c = length c.entries

  unfoldable pub is_empty : TimedCache K V → Bool
  is_empty c = is_nil c.entries

  unfoldable pub contains_key : TimedCache K V → K → ℕ → Bool
  contains_key c key now = is_some (get c key now)

  unfoldable pub cleanup_expired : TimedCache K V → ℕ → TimedCache K V
  cleanup_expired c now = record c { entries = retain (λ p. is_fresh c.ttl now p.1) c.entries }

-- The operations behind the lock of `AsyncTimedCache`, each of which holds it once.
pub data Op {ℓ κ} (K : Type ℓ) (V : Type κ) : Type (ℓ ⊔ κ) where
  inserts : K → V → Op K V
  removes : K → Op K V
  clears cleans : Op K V

module _ {ℓ κ} {K : Type ℓ} {V : Type κ} ⦃e : Eq K⦄ where
  unfoldable pub step : TimedCache K V → ℕ → Op K V → TimedCache K V
  step c now (inserts key value) = insert c key value now
  step c now (removes key) = (remove c key).1
  step c now clears = clear c
  step c now cleans = cleanup_expired c now

  unfoldable pub run : TimedCache K V → List (ℕ × Op K V) → TimedCache K V
  run c [] = c
  run c ((now, op) ∷ ops) = run (step c now op) ops
