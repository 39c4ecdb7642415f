-- ===== src/Store/Sound/JobStatements.antt =====
-- The statements on `jobs` keep the tables sound.
use processing_platform.Prelude.{
  ℕ, String, ◌≡◌, refl, sym, ap, inl, inr, Bool, true, false, ◌==◌, ==_iff, eq_iff, if◌then◌else◌,
  any, Bool-cases, All-update, map-update, Fresh_of_any, Option-cases, update,
}
use processing_platform.Failure.{err, violation, int_range}
use processing_platform.Store.Rows.{Db, Job, CreateJobParams, UpdateJobStateParams}
use processing_platform.Store.Sql.Base.{Stamp, has_device, find_job}
use processing_platform.Store.Sql.Jobs.{
  state_check, same_key, create_job, update_job, set_state, update_job_state, add_attempt,
  increment_job_attempts, attempts_fit, requeued, requeue_job, beaten, heartbeat,
}
use processing_platform.Store.Sound.{IsSound, key_and_type}

-- The rows that pass a test may change, if their identity stays and their state is legal.
module _ (f : Job → Job) (same_id : (j : Job) → (f j).id ≡ j.id)
    (same_key_and_type : (j : Job) → key_and_type (f j) ≡ key_and_type j)
    (same_device : (j : Job) → (f j).device_id ≡ j.device_id)
    (legal : (j : Job) → state_check j.state ≡ true → state_check (f j).state ≡ true) where
  update-IsSound :
      (p : Job → Bool) (db : Db) → IsSound db → IsSound (record db { jobs = update p f db.jobs })
  update-IsSound p db s = record {
    device_ids = s.device_ids;
    job_ids = rw (map-update (λ (j : Job). j.id) p f same_id) s.job_ids;
    job_keys = rw (map-update key_and_type p f same_key_and_type) s.job_keys;
    job_states = All-update _ p f (λ j e. legal j) db.jobs s.job_states;
    job_devices = rw (map-update (λ (j : Job). j.device_id) p f same_device) s.job_devices;
    metric_devices = s.metric_devices;
    firmware_devices = s.firmware_devices;
    audit_devices = s.audit_devices;
    alert_devices = s.alert_devices;
  }

  update_job-IsSound : (id : ℕ) (db : Db) → IsSound db → IsSound (update_job id f db).1
  unfolding update_job
  update_job-IsSound id db s = elim (Option-cases (find_job id db)) [
    | inl e ↦ rw (e, update_job) s
    | inr (j, e) ↦ rw (e, update_job) (update-IsSound (λ k. k.id == id) db s)
  ]

pub heartbeat-IsSound : (t id : ℕ) (db : Db) → IsSound db → IsSound (heartbeat t id db)
unfolding heartbeat
heartbeat-IsSound t id db s =
    update-IsSound (beaten t) (λ j. refl) (λ j. refl) (λ j. refl) (λ j h. h) (λ j. j.id == id) db s

-- A section's state is legal whatever the row was.
module _ (p : UpdateJobStateParams) (now : ℕ) (legal : state_check p.state ≡ true) where
  set_state-IsSound :
      (id : ℕ) (db : Db) → IsSound db → IsSound (update_job id (set_state p now) db).1
  unfolding set_state
  set_state-IsSound id db s =
      update_job-IsSound (set_state p now) (λ j. refl) (λ j. refl) (λ j. refl) (λ j h. legal) id db
        s

pub update_job_state-IsSound :
    (p : UpdateJobStateParams) (s : Stamp) (db : Db)
    → IsSound db
    → IsSound (update_job_state p s db).1
unfolding update_job_state
update_job_state-IsSound p s db h = elim (Bool-cases (state_check p.state)) [
  | inl e ↦ rw e (set_state-IsSound p s.now e p.id db h)
  | inr e ↦ rw e (elim (Option-cases (find_job p.id db)) [
    | inl n ↦ rw (n, update_job_state) h
    | inr (j, n) ↦ rw (n, update_job_state) h
  ])
]

pub add_attempt-IsSound :
    (id : ℕ) (s : Stamp) (db : Db) → IsSound db → IsSound (increment_job_attempts id s db).1
unfolding increment_job_attempts
add_attempt-IsSound id s db h = pick (attempts_fit id db)
  where
    pick :
        (b : Bool)
        → IsSound
            (if b
              then update_job id (add_attempt s.now) db
              else (err (violation int_range s.text), db)).1
    pick true =
        update_job-IsSound (add_attempt s.now) (λ j. refl) (λ j. refl) (λ j. refl) (λ j h. h) id db
          h
    pick false = h

pub requeue_job-IsSound :
    (id : ℕ) (s : Stamp) (db : Db) → IsSound db → IsSound (requeue_job id s db).1
unfolding requeue_job state_check
requeue_job-IsSound id s db h = pick (attempts_fit id db)
  where
    pick :
        (b : Bool)
        → IsSound
            (if b
              then update_job id (requeued s.now) db
              else (err (violation int_range s.text), db)).1
    pick true =
        update_job-IsSound (requeued s.now) (λ j. refl) (λ j. refl) (λ j. refl) (λ j h. refl) id db
          h
    pick false = h

same_key-of_eq :
    (key type : String) (j : Job) → (key, type) ≡ key_and_type j → same_key key type j ≡ true
unfolding same_key
same_key-of_eq key type j e =
    rw
      (
        (eq_iff _ _).1 (sym (ap (λ (x : String × String). x.0) e)),
        (eq_iff _ _).1 (sym (ap (λ (x : String × String). x.1) e)),
      )
      refl

pub create_job-IsSound :
    (p : CreateJobParams) (s : Stamp) (db : Db) → IsSound db → IsSound (create_job p s db).1
unfolding create_job state_check
create_job-IsSound p s db h = elim (Bool-cases (any (λ (j : Job). j.id == s.uuid) db.jobs)) [
  | inl e ↦ rw e h
  | inr new_id ↦ elim (Bool-cases (any (same_key p.idempotency_key p.type) db.jobs)) [
    | inl e ↦ rw (new_id, e) h
    | inr new_key ↦ elim (Bool-cases (has_device p.device_id db)) [
      | inr e ↦ rw (new_id, new_key, e) h
      | inl known ↦
          rw (new_id, new_key, known)
            (record {
              device_ids = h.device_ids;
              job_ids = (
                Fresh_of_any _ s.uuid _ (λ j q. (==_iff _ _).1 (sym q)) db.jobs new_id,
                h.job_ids,
              );
              job_keys = (
                Fresh_of_any key_and_type (p.idempotency_key, p.type) _
                    (λ j q. same_key-of_eq _ _ j q) db.jobs new_key,
                h.job_keys,
              );
              job_states = (refl, h.job_states);
              job_devices = (known, h.job_devices);
              metric_devices = h.metric_devices;
              firmware_devices = h.firmware_devices;
              audit_devices = h.audit_devices;
              alert_devices = h.alert_devices;
            })
    ]
  ]
]
