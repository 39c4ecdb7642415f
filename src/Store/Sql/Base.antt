-- ===== src/Store/Sql/Base.antt =====
-- What every statement takes, and the lookups that constraints and queries share.
use processing_platform.Prelude.{ℕ, String, Bool, Option, List, ◌==◌, str_eq, find, any}
use processing_platform.Failure.{Result}
use processing_platform.Store.Rows.{Db, Job}

pub record Stamp : Type 0 where
  pub now : ℕ
  pub uuid : ℕ
  pub text : String
  pub locked : List ℕ

-- A statement that returns a value of type A.
abbrev pub Statement : Type 0 → Type 0
Statement A = Stamp → Db → Result A × Db

unfoldable pub has_device : String → Db → Bool
has_device id db = any (λ d. str_eq d.id id) db.devices

unfoldable pub find_job : ℕ → Db → Option Job
find_job id db = find (λ j. j.id == id) db.jobs
