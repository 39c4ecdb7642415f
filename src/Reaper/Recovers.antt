-- ===== src/Reaper/Recovers.antt =====
-- cmd/reaper/main.go: a scan brings back the overdue jobs, where every request is delivered at once.
use processing_platform.Prelude.{
  ℕ, ◌<◌, ◌≡◌, ◌≢◌, ◌⊎◌, refl, ap, sym, subst, ◌∙◌, inl, inr, Bool, true, some, List, [], ◌∷◌, ◌==◌,
  ==_iff, find, update, Any, Bool-cases, if◌then◌else◌, arith,
}
use processing_platform.Failure.{ok}
use processing_platform.World.{World, Message, pure}
use processing_platform.World.Calm.{bind-attempt}
use processing_platform.Codec.{Codec}
use processing_platform.Jobs.State.{state_queued}
use processing_platform.Store.Rows.{Db, Job, ReapStaleJobsRow}
use processing_platform.Store.Sql.Base.{find_job}
use processing_platform.Store.Sql.Jobs.{requeued, int_max}
use processing_platform.Reaper.{job_message, requeue_all}
use processing_platform.Reaper.Requeues.{Told, Refused, Requeued, Outcome, requeue-Outcome}

-- An update that keeps the test finds the same row, changed where it is one of those.
find-updated :
    {A : Type 0} (p q : A → Bool) (f : A → A) (xs : List A) (x : A)
    → ((y : A) → p (f y) ≡ p y)
    → find p xs ≡ some x
    → find p (update q f xs) ≡ some (if q x then f x else x)
find-updated p q f [] x h e = cc e
find-updated p q f (y ∷ ys) x h e = elim (Bool-cases (p y)) [
  | inl t ↦
      let same : y ≡ x = cc (rw t at e) in
      elim (Bool-cases (q y)) [
        | inl r ↦ rw (r, h y, t, ← same, r) refl
        | inr r ↦ rw (r, t, ← same, r) refl
      ]
  | inr n ↦
      let rest = find-updated p q f ys x h (rw n at e) in
      elim (Bool-cases (q y)) [ inl r ↦ rw (r, h y, n) rest | inr r ↦ rw (r, n) rest ]
]

find-passes : {A : Type 0} (p : A → Bool) (xs : List A) (x : A) → find p xs ≡ some x → p x ≡ true
find-passes p [] x e = cc e
find-passes p (y ∷ ys) x e = elim (Bool-cases (p y)) [
  | inl t ↦ let same : y ≡ x = cc (rw t at e) in subst (λ z. p z ≡ true) same t
  | inr n ↦ find-passes p ys x (rw n at e)
]

module _ (cx : Codec) where
  -- The job is QUEUED, and announced unless its attempts are used up.
  abbrev pub Recovered : ℕ → World → Type 0
  Recovered id w =
      (j : Job) × (find_job id w.db ≡ some j) × (j.state ≡ state_queued) × Told cx j w.outbox

  Told-grown :
      (j : Job) {o o' : List Message}
      → (o' ≡ o) ⊎ ((m : Message) × (o' ≡ m ∷ o))
      → Told cx j o
      → Told cx j o'
  Told-grown j (inl e) t = subst (λ o. Told cx j o) (sym e) t
  Told-grown j (inr (m, e)) (inl spent) = inl spent
  Told-grown j (inr (m, e)) (inr a) = subst (λ o. Told cx j o) (sym e) (inr (inr a))

  Told-requeued : (t : ℕ) (j : Job) (o : List Message) → Told cx j o → Told cx (requeued t j) o
  unfolding requeued job_message
  Told-requeued t j o (inl spent) = inl (omega arith)
  Told-requeued t j o (inr a) = inr a

  module _ (id : ℕ) (s : ReapStaleJobsRow) {w w' : World} where
    -- What becomes of another row, or of the row itself.
    find-Requeued :
        (r : Requeued cx s w w') (j : Job)
        → find_job id w.db ≡ some j
        → find_job id w'.db ≡ some (if j.id == s.id then requeued r.time j else j)
    unfolding find_job requeued
    find-Requeued r j e =
        ap (λ (d : Db). find (λ (k : Job). k.id == id) d.jobs) r.new_db
        ∙ find-updated (λ (k : Job). k.id == id) (λ k. k.id == s.id) (requeued r.time) w.db.jobs j
            (λ k. refl) e

    -- A recovered job stays so.
    Recovered-stays : Refused cx s w w' ⊎ Requeued cx s w w' → Recovered id w → Recovered id w'
    unfolding requeued
    Recovered-stays (inl r) (j, e, q, t) =
        (j, ap (find_job id) r.same_db ∙ e, q, Told-grown j (inl r.same_outbox) t)
    Recovered-stays (inr r) (j, e, q, t) = elim (Bool-cases (j.id == s.id)) [
      | inl same ↦ (
        requeued r.time j,
        find-Requeued r j e ∙ rw same refl,
        refl,
        Told-requeued r.time j w'.outbox (Told-grown j r.grown t),
      )
      | inr other ↦ (j, find-Requeued r j e ∙ rw other refl, q, Told-grown j r.grown t)
    ]

    -- A job that waits recovers in its own turn, and waits on in another's.
    Waits-turn :
        Refused cx s w w' ⊎ Requeued cx s w w'
        → (j : Job) → find_job id w.db ≡ some j
        → j.attempts < int_max
        → Recovered id w' ⊎ ((find_job id w'.db ≡ some j) × (s.id ≢ id))
    unfolding requeued find_job
    Waits-turn (inl r) j e small =
        inr (ap (find_job id) r.same_db ∙ e, λ q. r.full j (ap (λ i. find_job i w.db) q ∙ e) small)
    Waits-turn (inr r) j e small =
        let own : j.id ≡ id =
          (==_iff j.id id).0 (find-passes (λ (k : Job). k.id == id) w.db.jobs j e) in
        elim (Bool-cases (j.id == s.id)) [
          | inr other ↦ inr (
            find-Requeued r j e ∙ rw other refl,
            λ q. cc (other, (==_iff j.id s.id).1 (own ∙ sym q)),
          )
          | inl same ↦
              let mine : s.id ≡ id = sym ((==_iff j.id s.id).0 same) ∙ own in
              let row_is : r.row ≡ j = cc (r.found, e, mine) in
              inl (
                requeued r.time j,
                find-Requeued r j e ∙ rw same refl,
                refl,
                subst (λ k. Told cx (requeued r.time k) w'.outbox) row_is r.told,
              )
        ]

  -- The whole batch.
  pub requeue_all-Recovered :
      (id : ℕ) (j : Job) (rows : List ReapStaleJobsRow) (w : World)
      → j.attempts < int_max
      → w.env ≡ []
      → ((find_job id w.db ≡ some j) × Any (λ (s : ReapStaleJobsRow). s.id ≡ id) rows)
        ⊎ Recovered id w
      → (w' : World) × (requeue_all cx rows w ≡ (ok tt, w')) × Recovered id w'
  unfolding requeue_all pure
  requeue_all-Recovered id j [] w small calm (inl (e, a)) = absurd a
  requeue_all-Recovered id j [] w small calm (inr good) = (w, refl, good)
  requeue_all-Recovered id j (s ∷ rest) w small calm p =
      let turn = requeue-Outcome cx s w calm in
      let (w', q, good) = requeue_all-Recovered id j rest turn.end small turn.calm (next turn p) in
      (w', bind-attempt _ _ w turn.ends ∙ q, good)
    where
      next :
          (o : Outcome cx s w)
          → ((find_job id w.db ≡ some j) × Any (λ (s : ReapStaleJobsRow). s.id ≡ id) (s ∷ rest))
            ⊎ Recovered id w
          → ((find_job id o.end.db ≡ some j) × Any (λ (s : ReapStaleJobsRow). s.id ≡ id) rest)
            ⊎ Recovered id o.end
      next o (inr good) = inr (Recovered-stays id s o.way good)
      next o (inl (e, a)) = elim (Waits-turn id s o.way j e small) [
        | inl good ↦ inr good
        | inr (waits, other) ↦ inl (waits, later other a)
      ]
        where
          later :
              s.id ≢ id
              → Any (λ (s : ReapStaleJobsRow). s.id ≡ id) (s ∷ rest)
              → Any (λ (s : ReapStaleJobsRow). s.id ≡ id) rest
          later n (inl here) = absurd (n here)
          later n (inr there) = there
