-- ===== src/Jobs/Tiers.antt =====
-- What holds of `Type.Valid` and `TierFor` (internal/jobs/types.go, tier.go) together.
use processing_platform.Prelude.{
  String, ◌≡◌, refl, ◌⊎◌, inl, inr, true, some, eq_iff, str_eq, Bool-cases,
}
use processing_platform.Jobs.Types.{
  type_telemetry_processing, type_remote_command, type_firmware_update, type_health_check,
  type_alert_generation, tier_realtime, tier_standard, tier_bulk, valid, tier_for,
}

abbrev pub IsTier : String → Type 0
IsTier s = (s ≡ tier_realtime) ⊎ (s ≡ tier_standard) ⊎ (s ≡ tier_bulk)

-- What the two functions say of one type.
abbrev Agree : String → Type 0
Agree t =
    (valid t ≡ true → (tier : String) × (tier_for t ≡ some tier) × IsTier tier)
    × ((tier : String) → tier_for t ≡ some tier → valid t ≡ true)

Agree-known : (t tier : String) → valid t ≡ true → tier_for t ≡ some tier → IsTier tier → Agree t
Agree-known t tier v f known = ((λ _. (tier, f, known)), (λ _ _. v))

-- A type that the edge accepts has a tier, one of the three; a type that has a tier is accepted.
pub tier_for-valid :
    (t : String)
    → (valid t ≡ true → (tier : String) × (tier_for t ≡ some tier) × IsTier tier)
      × ((tier : String) → tier_for t ≡ some tier → valid t ≡ true)
unfolding valid tier_for
tier_for-valid t = elim (Bool-cases (str_eq t type_remote_command)) [
  | inl e ↦
      rw ((eq_iff _ _).0 e) (Agree-known type_remote_command tier_realtime refl refl (inl refl))
  | inr n ↦ elim (Bool-cases (str_eq t type_telemetry_processing)) [
    | inl e ↦
        rw ((eq_iff _ _).0 e)
          (Agree-known type_telemetry_processing tier_standard refl refl (inr (inl refl)))
    | inr n₁ ↦ elim (Bool-cases (str_eq t type_health_check)) [
      | inl e ↦
          rw ((eq_iff _ _).0 e)
            (Agree-known type_health_check tier_standard refl refl (inr (inl refl)))
      | inr n₂ ↦ elim (Bool-cases (str_eq t type_alert_generation)) [
        | inl e ↦
            rw ((eq_iff _ _).0 e)
              (Agree-known type_alert_generation tier_standard refl refl (inr (inl refl)))
        | inr n₃ ↦ elim (Bool-cases (str_eq t type_firmware_update)) [
          | inl e ↦
              rw ((eq_iff _ _).0 e)
                (Agree-known type_firmware_update tier_bulk refl refl (inr (inr refl)))
          | inr n₄ ↦ rw (n, n₁, n₂, n₃, n₄) ((λ h. cc), (λ _ h. cc))
        ]
      ]
    ]
  ]
]
