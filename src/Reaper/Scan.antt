-- ===== src/Reaper/Scan.antt =====
-- internal/store/db/queries.sql.go: which rows `ReapStaleJobs` picks.
use processing_platform.Prelude.{
  ℕ, zero, suc, ◌+◌, ◌≤◌, ◌≡◌, refl, ap, sym, subst, inl, inr, Bool, true, false, ◌&&◌, not, some,
  List, [], ◌∷◌, ltb, str_eq, eq_iff, any, ◌==◌, filter, take, map, length, All, Any, All-weaken,
  Bool-cases, Option-cases, arith,
}
use processing_platform.Failure.{ok}
use processing_platform.Jobs.State.{state_running}
use processing_platform.Store.Rows.{Db, Job, ReapStaleJobsRow}
use processing_platform.Store.Sql.Base.{Stamp}
use processing_platform.Store.Sql.Stale.{
  heartbeat_before, stale, older, insert_by_heartbeat, order_by_heartbeat, reap_row,
  reap_stale_jobs,
}

-- The job is RUNNING, and its last heartbeat is longer ago than the interval.
pub record Overdue (interval now : ℕ) (j : Job) : Type 0 where
  pub running : j.state ≡ state_running
  pub last : ℕ
  pub beat : j.heartbeat_at ≡ some last
  pub before : ltb (last + interval) now ≡ true

stale-Overdue : (interval now : ℕ) (j : Job) → stale interval now j ≡ true → Overdue interval now j
unfolding stale heartbeat_before
stale-Overdue interval now j h = elim (Bool-cases (str_eq j.state state_running)) [
  | inr n ↦ cc (rw n at h)
  | inl e ↦ elim (Option-cases j.heartbeat_at) [
    | inl n ↦ cc (rw (e, n) at h)
    | inr (t, b) ↦ record {
      running = (eq_iff _ _).0 e;
      last = t;
      beat = b;
      before = rw (e, b) at h;
    }
  ]
]

and-left : (a b : Bool) → a && b ≡ true → a ≡ true
and-left true b h = refl
and-left false b h = h

All-filter :
    {A : Type 0} (P : A → Type 0) (p : A → Bool) (xs : List A)
    → All P xs
    → All (λ x. (p x ≡ true) × P x) (filter p xs)
All-filter P p [] h = tt
All-filter P p (x ∷ xs) h = elim (Bool-cases (p x)) [
  | inl e ↦ rw e ((e, h.0), All-filter P p xs h.1)
  | inr n ↦ rw n (All-filter P p xs h.1)
]

All-take : {A : Type 0} (P : A → Type 0) (n : ℕ) (xs : List A) → All P xs → All P (take n xs)
All-take P zero xs h = tt
All-take P (suc n) [] h = tt
All-take P (suc n) (x ∷ xs) h = (h.0, All-take P n xs h.1)

All-insert :
    (P : Job → Type 0) (j : Job) (ks : List Job) → P j → All P ks → All P (insert_by_heartbeat j ks)
unfolding insert_by_heartbeat
All-insert P j [] p h = (p, tt)
All-insert P j (k ∷ ks) p h = elim (Bool-cases (older j.heartbeat_at k.heartbeat_at)) [
  | inl e ↦ rw e (p, h)
  | inr n ↦ rw n (h.0, All-insert P j ks p h.1)
]

All-order : (P : Job → Type 0) (ks : List Job) → All P ks → All P (order_by_heartbeat ks)
unfolding order_by_heartbeat
All-order P [] h = tt
All-order P (k ∷ ks) h = All-insert P k _ h.0 (All-order P ks h.1)

-- Every element of a list is one of the list.
All-self : {A : Type 0} (xs : List A) → All (λ x. Any (λ y. y ≡ x) xs) xs
All-self [] = tt
All-self (x ∷ xs) = (
  inl refl,
  All-weaken (λ z. Any (λ y. y ≡ z) xs) (λ z. Any (λ y. y ≡ z) (x ∷ xs)) (λ z h. inr h) xs
      (All-self xs),
)

length-take : {A : Type 0} (n : ℕ) (xs : List A) → length (take n xs) ≤ n
length-take zero xs = omega arith
length-take (suc n) [] = omega arith
length-take (suc n) (x ∷ xs) = omega (arith, length-take n xs)

pub length-map : {A B : Type 0} (f : A → B) (xs : List A) → length (map f xs) ≡ length xs
length-map f [] = refl
length-map f (x ∷ xs) = ap suc (length-map f xs)

All-map :
    {A B : Type 0} (P : B → Type 0) (f : A → B) (xs : List A)
    → All (λ x. P (f x)) xs
    → All P (map f xs)
All-map P f [] h = tt
All-map P f (x ∷ xs) h = (h.0, All-map P f xs h.1)

-- The row is that of an overdue job of the table.
abbrev pub FromOverdue : ℕ → ℕ → List Job → ReapStaleJobsRow → Type 0
FromOverdue interval now jobs r =
    (j : Job) × Any (λ k. k ≡ j) jobs × Overdue interval now j × (reap_row j ≡ r)

-- ReapStaleJobs changes nothing and returns rows, at most as many as its limit, each that of a job
-- of the table that is RUNNING and whose last heartbeat is longer ago than the interval.
pub reap_stale_jobs-Overdue :
    (interval limit : ℕ) (s : Stamp) (db : Db)
    → (rows : List ReapStaleJobsRow) × (reap_stale_jobs interval limit s db ≡ (ok rows, db))
      × (length rows ≤ limit)
      × All (FromOverdue interval s.now db.jobs) rows
unfolding reap_stale_jobs
reap_stale_jobs-Overdue interval limit s db =
    let test = λ (j : Job). stale interval s.now j && not (any (λ id. id == j.id) s.locked) in
    let found = filter test db.jobs in
    let picked = take limit (order_by_heartbeat found) in
    let Good = λ (j : Job). (test j ≡ true) × Any (λ k. k ≡ j) db.jobs in
    let good = All-take Good limit _ (
      All-order Good found
        (All-filter (λ j. Any (λ k. k ≡ j) db.jobs) test db.jobs (All-self db.jobs))) in
    (
      map reap_row picked,
      refl,
      subst (λ n. n ≤ limit) (sym (length-map reap_row picked))
          (length-take limit (order_by_heartbeat found)),
      All-map (FromOverdue interval s.now db.jobs) reap_row picked (
          All-weaken Good (λ j. FromOverdue interval s.now db.jobs (reap_row j))
            (λ j g. (j, g.1, stale-Overdue interval s.now j (and-left _ _ g.0), refl)) picked good),
    )
