-- ===== src/HashMap/Laws.antt =====
-- Lookups after each operation, and the distinct keys.
use matrix_bridge_discord.Prelude.{
  List, [], ◌∷◌, Bool, true, false, Option, none, some, ◌≡◌, refl, subst, if◌then◌else◌, arith,
  Bool-cases, inl, inr, retain,
}
use matrix_bridge_discord.HashMap.{Eq, get, insert, remove, Fresh, HasDistinctKeys}

module _ {ℓ} {K : Type ℓ} ⦃e : Eq K⦄ where
  pub beq_refl : (k : K) → e.beq k k ≡ true
  beq_refl k = (e.beq_iff k k).1 refl

  beq_sym : (j k : K) → e.beq j k ≡ false → e.beq k j ≡ false
  beq_sym j k h = ground (arith, e.beq_iff j k, e.beq_iff k j)

-- The value that is kept, if the entry passes the test.
abbrev pub keep {κ} : {V : Type κ} → (V → Bool) → Option V → Option V
keep p none = none
keep p (some v) = if p v then some v else none

module _ {ℓ κ} {K : Type ℓ} {V : Type κ} ⦃e : Eq K⦄ where
  pub get-insert :
      (k j : K) (v : V) (m : List (K × V))
      → get j (insert k v m) ≡ (if e.beq k j then some v else get j m)
  unfolding get insert
  get-insert k j v [] = refl
  get-insert k j v ((i, w) ∷ m) = elim (Bool-cases (e.beq i k)) [
    | inl same ↦ rw (same, (e.beq_iff i k).0 same) (ground arith)
    | inr other ↦ ground (arith, get-insert k j v m, e.beq_iff i j, e.beq_iff k j, e.beq_iff i k)
  ]

  get_of_Fresh : (k : K) (m : List (K × V)) → Fresh k m → get k m ≡ none
  unfolding get
  get_of_Fresh k [] _ = refl
  get_of_Fresh k ((j, v) ∷ m) (h, hs) = rw (h, get_of_Fresh k m hs)

  pub get-remove :
      (k j : K) (m : List (K × V)) → get j (remove k m) ≡ (if e.beq k j then none else get j m)
  unfolding get remove
  get-remove k j [] = ground arith
  get-remove k j ((i, w) ∷ m) =
      ground (arith, get-remove k j m, e.beq_iff i j, e.beq_iff k j, e.beq_iff i k)

  Fresh-insert :
      (k j : K) (v : V) (m : List (K × V)) → e.beq k j ≡ false → Fresh j m → Fresh j (insert k v m)
  unfolding insert
  Fresh-insert k j v [] h _ = (h, tt)
  Fresh-insert k j v ((i, w) ∷ m) h (hi, hm) = ground (arith, Fresh-insert k j v m h hm)

  pub insert-HasDistinctKeys :
      (k : K) (v : V) (m : List (K × V)) → HasDistinctKeys m → HasDistinctKeys (insert k v m)
  unfolding insert
  insert-HasDistinctKeys k v [] _ = (tt, tt)
  insert-HasDistinctKeys k v ((i, w) ∷ m) (hi, hm) = elim (Bool-cases (e.beq i k)) [
    | inl same ↦ rw same (rw (← (e.beq_iff i k).0 same) hi, hm)
    | inr other ↦
        rw other (Fresh-insert k i v m (beq_sym i k other) hi, insert-HasDistinctKeys k v m hm)
  ]

  Fresh-remove : (k j : K) (m : List (K × V)) → Fresh j m → Fresh j (remove k m)
  unfolding remove
  Fresh-remove k j [] _ = tt
  Fresh-remove k j ((i, w) ∷ m) (hi, hm) = ground (arith, Fresh-remove k j m hm)

  pub remove-HasDistinctKeys :
      (k : K) (m : List (K × V)) → HasDistinctKeys m → HasDistinctKeys (remove k m)
  unfolding remove
  remove-HasDistinctKeys k [] _ = tt
  remove-HasDistinctKeys k ((i, w) ∷ m) (hi, hm) =
      ground (arith, Fresh-remove k i m hi, remove-HasDistinctKeys k m hm)

  Fresh-retain : (p : K × V → Bool) (j : K) (m : List (K × V)) → Fresh j m → Fresh j (retain p m)
  Fresh-retain p j [] _ = tt
  Fresh-retain p j ((i, w) ∷ m) (hi, hm) = ground (arith, Fresh-retain p j m hm)

  pub retain-HasDistinctKeys :
      (p : K × V → Bool) (m : List (K × V)) → HasDistinctKeys m → HasDistinctKeys (retain p m)
  retain-HasDistinctKeys p [] _ = tt
  retain-HasDistinctKeys p ((i, w) ∷ m) (hi, hm) =
      ground (arith, Fresh-retain p i m hi, retain-HasDistinctKeys p m hm)

  pub get-retain :
      (p : V → Bool) (k : K) (m : List (K × V))
      → HasDistinctKeys m
      → get k (retain (λ (q : K × V). p q.1) m) ≡ keep p (get k m)
  unfolding get
  get-retain p k [] _ = refl
  get-retain p k ((i, w) ∷ m) (hi, hm) = elim (Bool-cases (e.beq i k)) [
    | inl same ↦
        let gone =
          get_of_Fresh k (retain (λ (q : K × V). p q.1) m)
            (Fresh-retain _ k m (subst (λ j. Fresh j m) ((e.beq_iff i k).0 same) hi)) in
        ground (arith, gone)
    | inr other ↦ ground (arith, get-retain p k m hm)
  ]
