-- ===== src/GoMap.antt =====
-- Go maps, as association lists: `read` and `write` of string keys, where a missing key gives the zero
-- value, and `lookup` and `put` of other keys, where the read tells whether the key is there.
use processing_platform.Prelude.{
  String, Bool, ◌≡◌, refl, true, Option, none, some, List, [], ◌∷◌, str_eq, eq_iff, if◌then◌else◌,
  arith, ◌↔◌,
}

abbrev pub GoMap : Type 0 → Type 0
GoMap V = List (String × V)

module _ {V : Type 0} where
  -- `m[k]` where `zero_value` is V's.
  unfoldable pub read : V → String → GoMap V → V
  read zero_value k [] = zero_value
  read zero_value k ((j, v) ∷ m) = if str_eq j k then v else read zero_value k m

  -- `m[k] = v`.
  unfoldable pub write : String → V → GoMap V → GoMap V
  write k v [] = (k, v) ∷ []
  write k v ((j, w) ∷ m) = if str_eq j k then (j, v) ∷ m else (j, w) ∷ write k v m

  -- A write is read back, and the other keys are as they were.
  pub read-write :
      (zero_value : V) (k j : String) (v : V) (m : GoMap V)
      → read zero_value j (write k v m) ≡ (if str_eq k j then v else read zero_value j m)
  unfolding read write
  read-write zero_value k j v [] = refl
  read-write zero_value k j v ((i, w) ∷ m) =
      ground (arith, eq_iff k j, eq_iff i k, eq_iff i j, read-write zero_value k j v m)

module _ {K V : Type 0} (same : K → K → Bool) where
  -- `v, ok := m[k]`.
  unfoldable pub lookup : K → List (K × V) → Option V
  lookup k [] = none
  lookup k ((j, v) ∷ m) = if same j k then some v else lookup k m

  -- `m[k] = v`.
  unfoldable pub put : K → V → List (K × V) → List (K × V)
  put k v [] = (k, v) ∷ []
  put k v ((j, w) ∷ m) = if same j k then (j, v) ∷ m else (j, w) ∷ put k v m

  pub lookup-put :
      ((a b : K) → (same a b ≡ true) ↔ (a ≡ b))
      → (k j : K) (v : V) (m : List (K × V))
      → lookup j (put k v m) ≡ (if same k j then some v else lookup j m)
  unfolding lookup put
  lookup-put is_eq k j v [] = refl
  lookup-put is_eq k j v ((i, w) ∷ m) =
      ground (arith, is_eq k j, is_eq i k, is_eq i j, lookup-put is_eq k j v m)
