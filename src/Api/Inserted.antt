-- ===== src/Api/Inserted.antt =====
-- The row that a submission inserts, and the bump to QUEUED.
use processing_platform.Prelude.{
  ℕ, String, ◌≡◌, refl, subst, ◌∙◌, inl, inr, Bool, true, Option, some, List, [], ◌∷◌, ◌==◌, ==_iff,
  find, any, Bool-cases, Option-cases,
}
use processing_platform.Failure.{Result, ok, err}
use processing_platform.World.{M, Message}
use processing_platform.World.Keeps.{Any_world, Inv, After, Triple}
use processing_platform.Jobs.State.{state_accepted, state_queued}
use processing_platform.Store.Rows.{Db, Job, CreateJobParams}
use processing_platform.Store.Sql.Base.{Stamp, has_device, find_job}
use processing_platform.Store.Sql.Jobs
use processing_platform.Store.Sql.Jobs.{new_job, same_key, update_job, set_state, state_check}
use processing_platform.System.Identity.{identity, HasJob}

-- The row is the one that the request asks for, and fresh.
pub record IsFresh (p : CreateJobParams) (j : Job) : Type 0 where
  pub type : j.type ≡ p.type
  pub tier : j.tier ≡ p.tier
  pub device_id : j.device_id ≡ p.device_id
  pub payload : j.payload ≡ p.payload
  pub idempotency_key : j.idempotency_key ≡ p.idempotency_key
  pub max_attempts : j.max_attempts ≡ p.max_attempts
  pub state : j.state ≡ state_accepted

abbrev pub Inserted : CreateJobParams → Job → Inv
Inserted p j db o = IsFresh p j × HasJob (identity j) db o

-- The inserted row is the one that is returned.
pub create_job-Inserted :
    (p : CreateJobParams) (s : Stamp) (db : Db) (o : List Message)
    → After (Inserted p) Any_world (Jobs.create_job p s db).0 (Jobs.create_job p s db).1 o
unfolding Jobs.create_job new_job
create_job-Inserted p s db o = elim (Bool-cases (any (λ (j : Job). j.id == s.uuid) db.jobs)) [
  | inl e ↦ rw e tt
  | inr a ↦ elim (Bool-cases (any (same_key p.idempotency_key p.type) db.jobs)) [
    | inl e ↦ rw (a, e) tt
    | inr b ↦ elim (Bool-cases (has_device p.device_id db)) [
      | inr e ↦ rw (a, b, e) tt
      | inl e ↦
          rw (a, b, e)
            (
              record {
                type = refl;
                tier = refl;
                device_id = refl;
                payload = refl;
                idempotency_key = refl;
                max_attempts = refl;
                state = refl;
              },
              inl refl,
            )
    ]
  ]
]

find-passes : {A : Type 0} (p : A → Bool) (xs : List A) (x : A) → find p xs ≡ some x → p x ≡ true
find-passes p [] x e = cc e
find-passes p (y ∷ ys) x e = elim (Bool-cases (p y)) [
  | inl t ↦ let q : y ≡ x = cc (rw t at e) in subst (λ z. p z ≡ true) q t
  | inr n ↦ find-passes p ys x (rw n at e)
]

-- An update answers with the row of its id.
update_job-id :
    (id : ℕ) (f : Job → Job) (db : Db)
    → ((j : Job) → (f j).id ≡ j.id)
    → After (λ (k : Job). λ d o. k.id ≡ id) Any_world (update_job id f db).0 db []
unfolding update_job find_job
update_job-id id f db h = elim (Option-cases (find (λ (j : Job). j.id == id) db.jobs)) [
  | inl n ↦ rw (n, update_job) tt
  | inr (j, n) ↦ rw (n, update_job) (h j ∙ (==_iff _ _).0 (find-passes _ db.jobs j n))
]

pub mark_queued-id :
    (id : ℕ) (last_error : Option String) (s : Stamp) (db : Db)
    → After
        (λ (k : Job). λ d o. k.id ≡ id)
        Any_world
        (Jobs.update_job_state
          (record { id = id; state = state_queued; last_error = last_error })
          s
          db).0
        db
        []
unfolding Jobs.update_job_state state_check set_state
mark_queued-id id last_error s db = update_job-id id _ db (λ j. refl)

pub After-with :
    {A : Type 0} (F : A → Type 0) (P : Inv) (r : Result A) (d db : Db) (o : List Message)
    → After (λ a. λ _ _. F a) Any_world r d []
    → P db o
    → After (λ a. λ x q. F a × P x q) P r db o
After-with F P (ok a) d db o f p = (f, p)
After-with F P (err e) d db o f p = p

-- A fact that does not depend on the world, out of the precondition.
pub Triple-given :
    {A : Type 0} {F : Type 0} {P E : Inv} {Q : A → Inv} {m : M A}
    → (F → Triple P m Q E)
    → Triple (λ db o. F × P db o) m Q E
Triple-given h = record { at = λ w p. (h p.0).at w p.1 }
