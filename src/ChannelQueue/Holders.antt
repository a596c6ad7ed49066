-- ===== src/ChannelQueue/Holders.antt =====
-- How many tasks hold a mutex, when one is let in or ends.
use matrix_bridge_discord.Prelude.{
  ℕ, ◌+◌, ◌≤◌, List, [], ◌∷◌, ◌++◌, String, Bool, true, false, not, ◌≡◌, refl, ap, arith,
  if◌then◌else◌, ◌&&◌, ◌||◌, eqb, eqb_iff, length, retain, Bool-cases, inl, inr,
}
use matrix_bridge_discord.HashMap.{string_eq}
use matrix_bridge_discord.ChannelQueue.{
  QueuedTask, Phase, spawned, running, finished, is_running, is_held, lock, unlock, modify,
}

abbrev pub holds : ℕ → QueuedTask → Bool
holds m t = is_running t && eqb t.mutex m

abbrev pub holders : ℕ → List QueuedTask → ℕ
holders m l = length (retain (holds m) l)

abbrev is_spawned : Phase → Bool
is_spawned spawned = true
is_spawned _ = false

unlock-holds :
    (m : ℕ) (c : String) (k : ℕ) (p : Phase)
    → holds m (unlock (record { channel = c; mutex = k; phase = p })) ≡ true
    → ⊥
unlock-holds m c k spawned h = ground arith
unlock-holds m c k running h = ground arith
unlock-holds m c k finished h = ground arith

-- A task that is let in holds its own mutex only, which was free.
lock-holds :
    (m : ℕ) (held : Bool) (c : String) (k : ℕ) (p : Phase)
    → let t : QueuedTask = record { channel = c; mutex = k; phase = p } in
      holds m (lock held t) ≡ (holds m t || (not held && (is_spawned p && eqb k m)))
lock-holds m true c k spawned = refl
lock-holds m true c k running = ground arith
lock-holds m true c k finished = refl
lock-holds m false c k spawned = refl
lock-holds m false c k running = ground arith
lock-holds m false c k finished = refl

pub unlock-holders : (m n : ℕ) (l : List QueuedTask) → holders m (modify unlock n l) ≤ holders m l
unlock-holders m n [] = omega arith
unlock-holders m ℕ.zero (t ∷ l) =
    let off = unlock-holds m t.channel t.mutex t.phase in
    ground (arith, Bool-cases (holds m (unlock t)), off)
unlock-holders m (ℕ.suc n) (t ∷ l) = ground (arith, unlock-holders m n l)

pub lock-holders :
    (m n : ℕ) (all l : List QueuedTask)
    → holders m (modify (λ t. lock (is_held t.mutex all) t) n l)
      ≤ holders m l + (if is_held m all then 0 else 1)
lock-holders m n all [] = omega arith
lock-holders m ℕ.zero all (t ∷ l) = elim (Bool-cases (eqb t.mutex m)) [
  | inl same ↦
      let here : t.mutex ≡ m = ground (arith, eqb_iff t.mutex m) in
      let held : is_held t.mutex all ≡ is_held m all = ap (λ k. is_held k all) here in
      ground (arith, held, lock-holds m (is_held t.mutex all) t.channel t.mutex t.phase)
  | inr other ↦ ground (arith, lock-holds m (is_held t.mutex all) t.channel t.mutex t.phase)
]
lock-holders m (ℕ.suc n) all (t ∷ l) = ground (arith, lock-holders m n all l)

pub free-holders : (m : ℕ) (l : List QueuedTask) → is_held m l ≡ false → holders m l ≡ 0
free-holders m [] h = refl
free-holders m (t ∷ l) h = ground (arith, free-holders m l)

pub holders-append :
    (m : ℕ) (l k : List QueuedTask) → holders m (l ++ k) ≡ holders m l + holders m k
holders-append m [] k = omega arith
holders-append m (t ∷ l) k = ground (arith, holders-append m l k)
