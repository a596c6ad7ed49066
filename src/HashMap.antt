-- ===== src/HashMap.antt =====
-- `HashMap`, as the program uses it: an association list with at most one entry for a key.
pub mod Laws
use matrix_bridge_discord.Prelude.{
  List, [], ◌∷◌, String, Bool, true, false, Option, none, some, ◌≡◌, ◌↔◌, if◌then◌else◌, not,
  ◌==◌ as str_eq, eq_iff,
}

-- Equality of keys.
pub record Eq {ℓ} (K : Type ℓ) : Type ℓ where
  pub beq : K → K → Bool
  pub beq_iff : (a b : K) → (beq a b ≡ true) ↔ (a ≡ b)

instance abbrev pub string_eq : Eq String
string_eq = record { beq = str_eq; beq_iff = eq_iff }

module _ {ℓ κ} {K : Type ℓ} {V : Type κ} ⦃e : Eq K⦄ where
  unfoldable pub get : K → List (K × V) → Option V
  get k [] = none
  get k ((j, v) ∷ m) = let rest = get k m in if e.beq j k then some v else rest

  unfoldable pub insert : K → V → List (K × V) → List (K × V)
  insert k v [] = (k, v) ∷ []
  insert k v ((j, w) ∷ m) =
      let rest = insert k v m in if e.beq j k then (k, v) ∷ m else (j, w) ∷ rest

  unfoldable pub remove : K → List (K × V) → List (K × V)
  remove k [] = []
  remove k ((j, w) ∷ m) = let rest = remove k m in if e.beq j k then rest else (j, w) ∷ rest

  -- No entry of the map has the key.
  abbrev pub Fresh : K → List (K × V) → Type 0
  Fresh k [] = Unit
  Fresh k ((j, _) ∷ m) = (e.beq j k ≡ false) × Fresh k m

  -- A key has one entry at most.
  abbrev pub HasDistinctKeys : List (K × V) → Type 0
  HasDistinctKeys [] = Unit
  HasDistinctKeys ((k, _) ∷ m) = Fresh k m × HasDistinctKeys m
