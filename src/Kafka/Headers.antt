-- ===== src/Kafka/Headers.antt =====
-- internal/kafka/trace_carrier.go: what `Get` reads after `Set`.
use processing_platform.Prelude.{
  String, ◌≡◌, refl, sym, inl, inr, [], ◌∷◌, str_eq, if◌then◌else◌, eq_iff, Bool-cases,
}
use processing_platform.Kafka.{Carrier, get, set}

-- After `Set` of a key, `Get` of that key reads the new value, and `Get` of any other key reads
-- what it read before.
pub get-set :
    (key val other : String) (c : Carrier)
    → get (set key val c) other ≡ (if str_eq key other then val else get c other)
unfolding get set
get-set key val other [] = refl
get-set key val other ((k, v) ∷ c) = elim (Bool-cases (str_eq k key)) [
  | inl e ↦
      rw (e, (eq_iff _ _).0 e)
        (elim (Bool-cases (str_eq key other)) [ inl q ↦ rw q refl | inr q ↦ rw q refl ])
  | inr n ↦ rw n (elim (Bool-cases (str_eq k other)) [
    | inl q ↦
        rw (q, ← (eq_iff _ _).0 q, get)
          (elim (Bool-cases (str_eq key k)) [
            | inl p ↦ cc ((eq_iff k key).1 (sym ((eq_iff key k).0 p)))
            | inr p ↦ rw p refl
          ])
    | inr q ↦ rw (q, get) (get-set key val other c)
  ])
]
