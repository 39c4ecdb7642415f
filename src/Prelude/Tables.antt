-- ===== src/Prelude/Tables.antt =====
-- Lemmas on tables: lists of rows that are searched and updated by Boolean tests.
use mathlib.Core.Path.{◌≡◌, refl, subst}
use mathlib.Core.Logic.{◌≢◌, inl, inr}
use mathlib.Core.Bool.{Bool, true, false}
use mathlib.Core.Option.{some}
use mathlib.Core.List.{List, [], ◌∷◌, map}
use processing_platform.Prelude.Tests.{Bool-cases}
use processing_platform.Prelude.Lists.{find, any, update, All, Any, AllPairs}

-- No two entries are equal.
abbrev pub Distinct : {A : Type 0} → List A → Type 0
Distinct xs = AllPairs (λ a b. a ≢ b) xs

module _ {A : Type 0} where
  pub All-update :
      (P : A → Type 0) (p : A → Bool) (f : A → A)
      → ((x : A) → p x ≡ true → P x → P (f x))
      → (xs : List A) → All P xs
      → All P (update p f xs)
  All-update P p f h [] a = tt
  All-update P p f h (x ∷ xs) (a, rest) = elim (Bool-cases (p x)) [
    | inl e ↦ (rw e (h x e a), All-update P p f h xs rest)
    | inr e ↦ (rw e a, All-update P p f h xs rest)
  ]

  pub All-weaken : (P Q : A → Type 0) → ((x : A) → P x → Q x) → (xs : List A) → All P xs → All Q xs
  All-weaken P Q h [] a = tt
  All-weaken P Q h (x ∷ xs) (a, rest) = (h x a, All-weaken P Q h xs rest)

  pub All-find :
      (P : A → Type 0) (p : A → Bool) (xs : List A) {x : A} → All P xs → find p xs ≡ some x → P x
  All-find P p [] a e = cc e
  All-find P p (y ∷ xs) {x = x} (a, rest) e = elim (Bool-cases (p y)) [
    | inl t ↦ let q : y ≡ x = cc (rw t at e) in subst P q a
    | inr n ↦ All-find P p xs rest (rw n at e)
  ]

  -- An update that leaves a column alone.
  pub map-update :
      {B : Type 0} (g : A → B) (p : A → Bool) (f : A → A)
      → ((x : A) → g (f x) ≡ g x)
      → (xs : List A) → map g (update p f xs) ≡ map g xs
  map-update g p f h [] = refl
  map-update g p f h (x ∷ xs) = elim (Bool-cases (p x)) [
    | inl e ↦ rw (e, h x, map-update g p f h xs) refl
    | inr e ↦ rw (e, map-update g p f h xs) refl
  ]

  pub any-update :
      (q p : A → Bool) (f : A → A)
      → ((x : A) → q (f x) ≡ q x)
      → (xs : List A) → any q (update p f xs) ≡ any q xs
  any-update q p f h [] = refl
  any-update q p f h (x ∷ xs) = elim (Bool-cases (p x)) [
    | inl e ↦ rw (e, h x, any-update q p f h xs) refl
    | inr e ↦ rw (e, any-update q p f h xs) refl
  ]

  -- What a failed search says of the column that it compares.
  pub Fresh_of_any :
      {B : Type 0} (g : A → B) (b : B) (p : A → Bool)
      → ((x : A) → b ≡ g x → p x ≡ true)
      → (xs : List A) → any p xs ≡ false
      → All (λ y. b ≢ y) (map g xs)
  Fresh_of_any g b p h [] e = tt
  Fresh_of_any g b p h (x ∷ xs) e = elim (Bool-cases (p x)) [
    | inl t ↦ cc (rw t at e)
    | inr n ↦ ((λ q. cc (h x q)), Fresh_of_any g b p h xs (rw n at e))
  ]

  pub Any-weaken : (P Q : A → Type 0) → ((x : A) → P x → Q x) → (xs : List A) → Any P xs → Any Q xs
  Any-weaken P Q h [] a = a
  Any-weaken P Q h (x ∷ xs) (inl a) = inl (h x a)
  Any-weaken P Q h (x ∷ xs) (inr a) = inr (Any-weaken P Q h xs a)

  pub Any-update :
      (P : A → Type 0) (p : A → Bool) (f : A → A)
      → ((x : A) → P x → P (f x))
      → (xs : List A) → Any P xs
      → Any P (update p f xs)
  Any-update P p f h [] a = a
  Any-update P p f h (x ∷ xs) (inr a) = inr (Any-update P p f h xs a)
  Any-update P p f h (x ∷ xs) (inl a) = elim (Bool-cases (p x)) [
    | inl e ↦ inl (rw e (h x a))
    | inr e ↦ inl (rw e a)
  ]
