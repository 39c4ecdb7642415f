-- ===== src/Worker/Stands.antt =====
-- A job followed through calm requests: its row, and what the brokers hold.
use processing_platform.Prelude.{
  ℕ, ◌+◌, ◌<◌, String, ◌≡◌, refl, ap, ◌∙◌, inl, inr, Bool, true, Option, some, List, [], ◌∷◌, ◌==◌,
  ltb, find, update, arith, Bool-cases,
}
use processing_platform.Failure.{ok}
use processing_platform.World.{World, Message, query, draw, take_draw}
use processing_platform.World.Calm.{query-calm, calm_stamp}
use processing_platform.Store.Rows.{Db, Job, UpdateJobStateParams}
use processing_platform.Store.Sql.Base.{find_job, Statement}
use processing_platform.Store.Sql.Jobs
use processing_platform.Store.Sql.Jobs.{
  update_job, set_state, state_check, add_attempt, attempts_fit, int_max,
}
use processing_platform.Store.Queries.{get_job, increment_job_attempts, update_job_state}
use processing_platform.Worker.{to_state}

-- The world is calm, the row of the id has this attempt limit, these attempts and this state, and
-- the brokers hold these messages.
pub record Stands (id limit attempts : ℕ) (state : String) (o : List Message) (w : World)
    : Type 0 where
  pub calm : w.env ≡ []
  pub job : Job
  pub found : find_job id w.db ≡ some job
  pub has_limit : job.max_attempts ≡ limit
  pub has_attempts : job.attempts ≡ attempts
  pub has_state : job.state ≡ state
  pub outbox : w.outbox ≡ o

find-update :
    {A : Type 0} (p : A → Bool) (f : A → A) (xs : List A) (x : A)
    → ((y : A) → p (f y) ≡ p y)
    → find p xs ≡ some x
    → find p (update p f xs) ≡ some (f x)
find-update p f [] x h e = cc e
find-update p f (y ∷ ys) x h e = elim (Bool-cases (p y)) [
  | inl t ↦ let q : y ≡ x = cc (rw t at e) in rw (t, h y, t) (ap (λ z. some (f z)) q)
  | inr n ↦ rw (n, n) (find-update p f ys x h (rw n at e))
]

abbrev pub changed : ℕ → (Job → Job) → Db → Db
changed id f db = record db { jobs = update (λ k. k.id == id) f db.jobs }

pub lt-ltb : (a b : ℕ) → a < b → ltb a b ≡ true
lt-ltb a b h = ground arith

-- What an UPDATE of a row that is there does.
pub update_job-found :
    (id : ℕ) (f : Job → Job) (db : Db) (j : Job)
    → find_job id db ≡ some j
    → update_job id f db ≡ (ok (f j), changed id f db)
unfolding update_job
update_job-found id f db j e = rw (e, update_job) refl

find-changed :
    (id : ℕ) (f : Job → Job) (db : Db) (j : Job)
    → ((k : Job) → (f k).id ≡ k.id)
    → find_job id db ≡ some j
    → find_job id (changed id f db) ≡ some (f j)
unfolding find_job
find-changed id f db j h e =
    find-update (λ (k : Job). k.id == id) f db.jobs j (λ k. ap (λ i. i == id) (h k)) e

module _ {id limit attempts : ℕ} {state : String} {o : List Message} {w : World}
    (s : Stands id limit attempts state o w) where
  -- The next world after a statement that updates the row.
  abbrev updated : (Job → Job) → World
  updated f = record w { db = changed id f w.db }

  statement-updates :
      (st : Statement Job) (f : Job → Job)
      → st (calm_stamp w) w.db ≡ update_job id f w.db
      → query st w ≡ (ok (f s.job), updated f)
  statement-updates st f e =
      query-calm st w s.calm
      ∙ ap (λ (r : _). (r.0, record w { db = r.1 })) (e ∙ update_job-found id f w.db s.job s.found)

  pub Stands-to_state :
      (next : String) (last_error : Option String)
      → state_check next ≡ true
      → (j : Job) × (w' : World) × (to_state id next last_error w ≡ (ok j, w'))
        × Stands id limit attempts next o w'
  unfolding update_job_state Jobs.update_job_state set_state
  Stands-to_state next last_error c =
      let arg : UpdateJobStateParams = record { id = id; state = next; last_error = last_error } in
      let f = set_state arg (calm_stamp w).now in
      (
        f s.job,
        updated f,
        statement-updates _ f (rw c refl),
        record {
          calm = s.calm;
          job = f s.job;
          found = find-changed id f w.db s.job (λ k. refl) s.found;
          has_limit = s.has_limit;
          has_attempts = s.has_attempts;
          has_state = refl;
          outbox = s.outbox;
        },
      )

  fits_row : attempts < int_max → attempts_fit id w.db ≡ true
  unfolding attempts_fit
  fits_row small = rw (s.found, attempts_fit, s.has_attempts) (lt-ltb attempts int_max small)

  pub Stands-increment :
      attempts < int_max
      → (j : Job) × (w' : World) × (increment_job_attempts id w ≡ (ok j, w'))
        × Stands id limit (attempts + 1) state o w'
  unfolding increment_job_attempts Jobs.increment_job_attempts add_attempt attempts_fit
  Stands-increment small =
      let fits = fits_row small in
      let f = add_attempt (calm_stamp w).now in
      (
        f s.job,
        updated f,
        statement-updates _ f (rw fits refl),
        record {
          calm = s.calm;
          job = f s.job;
          found = find-changed id f w.db s.job (λ k. refl) s.found;
          has_limit = s.has_limit;
          has_attempts = ap (λ n. n + 1) s.has_attempts;
          has_state = s.has_state;
          outbox = s.outbox;
        },
      )

  pub Stands-get_job : get_job id w ≡ (ok s.job, w)
  unfolding get_job Jobs.get_job
  Stands-get_job = query-calm (Jobs.get_job id) w s.calm ∙ rw (s.found, Jobs.get_job) refl

  drawn :
      (ds : List ℕ)
      → (r : ℕ) × (w' : World) × (take_draw ds w ≡ (ok r, w'))
        × Stands id limit attempts state o w'
        × (w'.trace ≡ w.trace)
  drawn [] = (0, w, refl, s, refl)
  drawn (d ∷ ds) = (
    d,
    record w { draws = ds },
    refl,
    record {
      calm = s.calm;
      job = s.job;
      found = s.found;
      has_limit = s.has_limit;
      has_attempts = s.has_attempts;
      has_state = s.has_state;
      outbox = s.outbox;
    },
    refl,
  )

  pub Stands-draw :
      (r : ℕ) × (w' : World) × (draw w ≡ (ok r, w'))
      × Stands id limit attempts state o w'
      × (w'.trace ≡ w.trace)
  unfolding draw
  Stands-draw = drawn w.draws

pub Stands-send :
    {id limit attempts : ℕ} {state : String} {o : List Message} {w : World} (m : Message)
    → Stands id limit attempts state o w
    → Stands id limit attempts state (m ∷ o) (record w { outbox = m ∷ w.outbox })
Stands-send m s = record {
  calm = s.calm;
  job = s.job;
  found = s.found;
  has_limit = s.has_limit;
  has_attempts = s.has_attempts;
  has_state = s.has_state;
  outbox = ap (λ o. m ∷ o) s.outbox;
}

pub Stands-beating :
    {id limit attempts : ℕ} {state : String} {o : List Message} {w : World} (b : Option ℕ)
    → Stands id limit attempts state o w
    → Stands id limit attempts state o (record w { beating = b })
Stands-beating b s = record {
  calm = s.calm;
  job = s.job;
  found = s.found;
  has_limit = s.has_limit;
  has_attempts = s.has_attempts;
  has_state = s.has_state;
  outbox = s.outbox;
}
