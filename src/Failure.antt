-- ===== src/Failure.antt =====
-- Go's `error` values and fallible results. An error that the program makes is `new` or `wrap`
-- (`fmt.Errorf`, the latter with `%w`); those of the drivers are named by what the program asks of
-- them (`errors.Is`), with the text that the driver gave.
use processing_platform.Prelude.{◌≡◌, refl, ◌⊎◌, inl, inr, String, ◌<>◌, Bool, true, false}

pub data Constraint : Type 0 where
  primary_key unique_key foreign_key check_constraint not_null int_range : Constraint

pub data Err : Type 0 where
  fault : String → Err
  violation : Constraint → String → Err
  no_rows : Err
  deadline_exceeded : Err
  new : String → Err
  wrap : String → Err → Err

-- `err.Error()`.
unfoldable pub error_text : Err → String
error_text (fault text) = text
error_text (violation _ text) = text
error_text no_rows = "no rows in result set"
error_text deadline_exceeded = "context deadline exceeded"
error_text (new text) = text
error_text (wrap context e) = context <> (": " <> error_text e)

-- `errors.Is(err, pgx.ErrNoRows)`.
unfoldable pub is_no_rows : Err → Bool
is_no_rows no_rows = true
is_no_rows (wrap _ e) = is_no_rows e
is_no_rows (fault _) = false
is_no_rows (violation _ _) = false
is_no_rows deadline_exceeded = false
is_no_rows (new _) = false

-- `errors.Is(err, context.DeadlineExceeded)`.
unfoldable pub is_deadline_exceeded : Err → Bool
is_deadline_exceeded deadline_exceeded = true
is_deadline_exceeded (wrap _ e) = is_deadline_exceeded e
is_deadline_exceeded (fault _) = false
is_deadline_exceeded (violation _ _) = false
is_deadline_exceeded no_rows = false
is_deadline_exceeded (new _) = false

pub data Result (A : Type 0) : Type 0 where
  ok : A → Result A
  err : Err → Result A

pub Result-cases : {A : Type 0} (r : Result A) → ((e : Err) × (r ≡ err e)) ⊎ ((a : A) × (r ≡ ok a))
Result-cases (ok a) = inr (a, refl)
Result-cases (err e) = inl (e, refl)
