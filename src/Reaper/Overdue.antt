-- ===== src/Reaper/Overdue.antt =====
-- cmd/reaper/main.go and ReapStaleJobs: a scan reaches every overdue job, where they fit a batch.
use processing_platform.Prelude.{
  ℕ, zero, suc, ◌≤◌, ◌<◌, ◌≡◌, refl, ap, sym, subst, ◌∙◌, inl, inr, Bool, true, false, ◌&&◌, some,
  List, [], ◌∷◌, eq_iff, filter, take, map, find, length, Any, Bool-cases, arith, ◌==◌,
}
use processing_platform.Failure.{ok}
use processing_platform.World.{World}
use processing_platform.World.Calm.{query-calm, calm_stamp, bind-ok}
use processing_platform.Codec.{Codec}
use processing_platform.Jobs.State.{state_running}
use processing_platform.Store.Rows.{Job, ReapStaleJobsRow}
use processing_platform.Store.Sql.Base.{find_job}
use processing_platform.Store.Sql.Jobs.{int_max}
use processing_platform.Store.Sql.Stale
use processing_platform.Store.Sql.Stale.{
  heartbeat_before, stale, older, insert_by_heartbeat, order_by_heartbeat, reap_row,
}
use processing_platform.Store.Queries.{reap_stale_jobs}
use processing_platform.Reaper.{staleness, max_batch, scan_once}
use processing_platform.Reaper.Scan.{Overdue}
use processing_platform.Reaper.Recovers.{Recovered, requeue_all-Recovered}

abbrev Holds : {A : Type 0} → A → List A → Type 0
Holds x xs = Any (λ y. y ≡ x) xs

Holds-find : {A : Type 0} (p : A → Bool) (xs : List A) (x : A) → find p xs ≡ some x → Holds x xs
Holds-find p [] x e = cc e
Holds-find p (y ∷ ys) x e = elim (Bool-cases (p y)) [
  | inl t ↦ inl (cc (rw t at e))
  | inr n ↦ inr (Holds-find p ys x (rw n at e))
]

Holds-filter :
    {A : Type 0} (p : A → Bool) (xs : List A) (x : A)
    → p x ≡ true
    → Holds x xs
    → Holds x (filter p xs)
Holds-filter p [] x t h = absurd h
Holds-filter p (y ∷ ys) x t (inl e) = rw (ap p e ∙ t) (inl e)
Holds-filter p (y ∷ ys) x t (inr h) = elim (Bool-cases (p y)) [
  | inl s ↦ rw s (inr (Holds-filter p ys x t h))
  | inr n ↦ rw n (Holds-filter p ys x t h)
]

filter_ext :
    {A : Type 0} (p q : A → Bool) (xs : List A) → ((x : A) → p x ≡ q x) → filter p xs ≡ filter q xs
filter_ext p q [] h = refl
filter_ext p q (x ∷ xs) h = rw (h x, filter_ext p q xs h) refl

Holds-insert_here : (j : Job) (ks : List Job) → Holds j (insert_by_heartbeat j ks)
unfolding insert_by_heartbeat
Holds-insert_here j [] = inl refl
Holds-insert_here j (k ∷ ks) = elim (Bool-cases (older j.heartbeat_at k.heartbeat_at)) [
  | inl e ↦ rw e (inl refl)
  | inr n ↦ rw n (inr (Holds-insert_here j ks))
]

Holds-insert : (i j : Job) (ks : List Job) → Holds j ks → Holds j (insert_by_heartbeat i ks)
unfolding insert_by_heartbeat
Holds-insert i j [] h = absurd h
Holds-insert i j (k ∷ ks) h = elim (Bool-cases (older i.heartbeat_at k.heartbeat_at)) [
  | inl e ↦ rw e (inr h)
  | inr n ↦ rw n (elim h [ inl q ↦ inl q | inr q ↦ inr (Holds-insert i j ks q) ])
]

Holds-order : (j : Job) (ks : List Job) → Holds j ks → Holds j (order_by_heartbeat ks)
unfolding order_by_heartbeat
Holds-order j [] h = absurd h
Holds-order j (k ∷ ks) (inl e) =
    subst (λ i. Holds i (insert_by_heartbeat k (order_by_heartbeat ks))) e (Holds-insert_here k _)
Holds-order j (k ∷ ks) (inr h) = Holds-insert k j _ (Holds-order j ks h)

length-insert : (j : Job) (ks : List Job) → length (insert_by_heartbeat j ks) ≡ suc (length ks)
unfolding insert_by_heartbeat
length-insert j [] = refl
length-insert j (k ∷ ks) = elim (Bool-cases (older j.heartbeat_at k.heartbeat_at)) [
  | inl e ↦ rw e refl
  | inr n ↦ rw n (ap suc (length-insert j ks))
]

length-order : (ks : List Job) → length (order_by_heartbeat ks) ≡ length ks
unfolding order_by_heartbeat
length-order [] = refl
length-order (k ∷ ks) = length-insert k _ ∙ ap suc (length-order ks)

take_all : {A : Type 0} (n : ℕ) (xs : List A) → length xs ≤ n → take n xs ≡ xs
take_all zero [] h = refl
take_all zero (x ∷ xs) h = absurd (omega (arith, h))
take_all (suc n) [] h = refl
take_all (suc n) (x ∷ xs) h = ap (λ ys. x ∷ ys) (take_all n xs (omega (arith, h)))

row-map :
    (j : Job) (ks : List Job)
    → Holds j ks
    → Any (λ (s : ReapStaleJobsRow). s.id ≡ j.id) (map reap_row ks)
unfolding reap_row
row-map j [] h = absurd h
row-map j (k ∷ ks) (inl e) = inl (ap (λ (i : Job). i.id) e)
row-map j (k ∷ ks) (inr h) = inr (row-map j ks h)

Overdue-stale : (interval now : ℕ) (j : Job) → Overdue interval now j → stale interval now j ≡ true
unfolding stale heartbeat_before
Overdue-stale interval now j o =
    rw ((eq_iff j.state state_running).1 o.running, o.beat, o.before) refl

and-true : (b : Bool) → b && true ≡ b
and-true true = refl
and-true false = refl

module _ (cx : Codec) (w : World) (calm : w.env ≡ []) where
  abbrev overdue : Job → Bool
  overdue = stale staleness (calm_stamp w).now

  -- What the query finds where nothing is locked.
  abbrev rows : List ReapStaleJobsRow
  rows =
      map reap_row (take max_batch (order_by_heartbeat (filter (λ j. overdue j && true) w.db.jobs)))

  reap-rows : reap_stale_jobs staleness max_batch w ≡ (ok rows, w)
  unfolding reap_stale_jobs Stale.reap_stale_jobs
  reap-rows = query-calm (Stale.reap_stale_jobs staleness max_batch) w calm

  Any-rows :
      (j : Job)
      → find_job j.id w.db ≡ some j
      → overdue j ≡ true
      → length (filter overdue w.db.jobs) ≤ max_batch
      → Any (λ (s : ReapStaleJobsRow). s.id ≡ j.id) rows
  unfolding find_job
  Any-rows j e late few =
      let found = filter overdue w.db.jobs in
      let kept : Holds j (order_by_heartbeat found) = Holds-order j found (
        Holds-filter overdue w.db.jobs j late
          (Holds-find (λ (k : Job). k.id == j.id) w.db.jobs j e)) in
      let all_taken : take max_batch (order_by_heartbeat found) ≡ order_by_heartbeat found =
        take_all max_batch _ (subst (λ n. n ≤ max_batch) (sym (length-order found)) few) in
      rw
        (
          filter_ext (λ k. overdue k && true) overdue w.db.jobs (λ k. and-true (overdue k)),
          all_taken,
        )
        (row-map j (order_by_heartbeat found) kept)

  -- Where every request is delivered at once, a scan ends without an error, and a RUNNING job whose
  -- last heartbeat is more than a minute ago, in a table where at most fifty are, is QUEUED after
  -- it and announced on its tier's topic unless its attempts are used up, where its counter is not
  -- full.
  pub scan_once-Recovered :
      (j : Job)
      → find_job j.id w.db ≡ some j
      → Overdue staleness (calm_stamp w).now j
      → length (filter (stale staleness (calm_stamp w).now) w.db.jobs) ≤ max_batch
      → j.attempts < int_max
      → (w' : World) × (scan_once cx w ≡ (ok tt, w')) × Recovered cx j.id w'
  unfolding scan_once
  scan_once-Recovered j e late few small =
      let (w', q, good) =
        requeue_all-Recovered cx j.id j rows w small calm
          (inl (e, Any-rows j e (Overdue-stale _ _ j late) few)) in
      (w', bind-ok _ _ w reap-rows ∙ q, good)
