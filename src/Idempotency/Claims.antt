-- ===== src/Idempotency/Claims.antt =====
-- internal/idempotency/idempotency.go: a key has one winner while its claim lives.
use native.Mathlib.Nat.{le_trans}
use processing_platform.Prelude.{
  ℕ, ◌+◌, ◌≤◌, ◌<◌, String, ◌<>◌, ◌≡◌, refl, subst, ◌∙◌, ◌⊎◌, inl, inr, Bool, true, false, Option,
  none, some, arith,
}
use processing_platform.Failure.{Result, ok, err, Result-cases}
use processing_platform.Codec.{Codec}
use processing_platform.Idempotency.{
  Redis, key_prefix, ttl, Claims, parsed_winner, winner, claimed, acquire, draw_uuid,
}

module _ (rd : Redis) where
  open rd use {Server, time, entry, set_nx, get}

  -- The second state may follow the first: whatever any clients did meanwhile, the clock was not
  -- turned back and no live entry was touched.
  pub record Later (s s' : Server) : Type 0 where
    pub time_le : time s ≤ time s'
    pub stays :
        (k v : String) (t : ℕ)
        → entry s k ≡ some (v, t)
        → (entry s' k ≡ some (v, t)) ⊎ (t ≤ time s')

  pub Later-trans : {s s' s'' : Server} → Later s s' → Later s' s'' → Later s s''
  Later-trans {s} {s'} {s''} a b = record {
    time_le = le_trans a.time_le b.time_le;
    stays = λ k v t e. onward k v t (a.stays k v t e);
  }
    where
      onward :
          (k v : String) (t : ℕ)
          → (entry s' k ≡ some (v, t)) ⊎ (t ≤ time s')
          → (entry s'' k ≡ some (v, t)) ⊎ (t ≤ time s'')
      onward k v t (inl e) = b.stays k v t e
      onward k v t (inr h) = inr (le_trans h b.time_le)

  pub set_nx-Later : (k v : String) (life : ℕ) (s : Server) → Later s (set_nx k v life s).1
  set_nx-Later k v life s = record {
    time_le = rd.set_nx-time k v life s;
    stays = λ j u t. rd.set_nx-stays k v life s j u t;
  }

  pub get-Later : (k : String) (s : Server) → Later s (get k s).1
  get-Later k s = record { time_le = rd.get-time k s; stays = λ j u t. rd.get-stays k s j u t }

  -- The entry is there until it expires.
  abbrev pub Held : String → String → ℕ → Server → Type 0
  Held k v t s = (entry s k ≡ some (v, t)) ⊎ (t ≤ time s)

  pub Held-Later :
      {s s' : Server} (k v : String) (t : ℕ) → Later s s' → Held k v t s → Held k v t s'
  Held-Later k v t l (inl e) = l.stays k v t e
  Held-Later k v t l (inr h) = inr (le_trans h l.time_le)

  Held-live :
      (k v : String) (t : ℕ) (s : Server) → Held k v t s → time s < t → entry s k ≡ some (v, t)
  Held-live k v t s (inl e) h = e
  Held-live k v t s (inr le) h = absurd (omega arith)

  module _ (cx : Codec) where
    claimed-Later :
        (k : String) (id : ℕ) (s : Server) (r : Result Bool × Server)
        → Later s r.1
        → Later s (claimed cx rd k id r).1
    unfolding claimed
    claimed-Later k id s (ok true, s') l = l
    claimed-Later k id s (ok false, s') l = Later-trans l (get-Later k s')
    claimed-Later k id s (err e, s') l = l

    pub acquire-Later : (key : String) (c : Claims cx rd) → Later c.1 (acquire cx rd key c).1.1
    unfolding acquire
    acquire-Later key (us, s) =
        claimed-Later (key_prefix <> key) _ s _ (set_nx-Later (key_prefix <> key) _ ttl s)

    -- What the answer of the GET makes of a held entry.
    winner-Held :
        (id id' : ℕ) (new : Bool) (v : String) (r : Result (Option String))
        → ((u : String) → r ≡ ok (some u) → u ≡ v)
        → v ≡ cx.uuid_string id
        → winner cx rd r ≡ ok (id', new)
        → (new ≡ false) × (id' ≡ id)
    unfolding winner
    winner-Held id id' new v (ok (some u)) reads e q =
        let p : u ≡ cx.uuid_string id = reads u refl ∙ e in
        let z : parsed_winner cx rd u (ok id) ≡ ok (id', new) =
          rw (p, cx.parse-uuid_string id) at q in
        (cc z, cc z)
    winner-Held id id' new v (ok none) reads e q = cc q
    winner-Held id id' new v (err x) reads e q = cc q

    winner-loses : (id : ℕ) (r : Result (Option String)) → ¬ (winner cx rd r ≡ ok (id, true))
    unfolding winner
    winner-loses id (err x) q = cc q
    winner-loses id (ok none) q = cc q
    winner-loses id (ok (some u)) q = elim (Result-cases (cx.parse_uuid u)) [
      | inl (x, e) ↦ cc (rw (e, parsed_winner) at q)
      | inr (i, e) ↦ cc (rw (e, parsed_winner) at q)
    ]

    claimed-Held :
        (k : String) (id mine id' : ℕ) (new : Bool) (t : ℕ) (s : Server) (r : Result Bool × Server)
        → Later s r.1
        → (r.0 ≡ ok true → (u : String) (t' : ℕ) → entry s k ≡ some (u, t') → t' ≤ time r.1)
        → entry s k ≡ some (cx.uuid_string id, t)
        → time (claimed cx rd k mine r).1 < t
        → (claimed cx rd k mine r).0 ≡ ok (id', new)
        → (new ≡ false) × (id' ≡ id)
    unfolding claimed
    claimed-Held k id mine id' new t s (err x, s') l free e live q = cc q
    claimed-Held k id mine id' new t s (ok true, s') l free e live q =
        absurd (omega (arith, free refl _ t e))
    claimed-Held k id mine id' new t s (ok false, s') l free e live q =
        winner-Held id id' new (cx.uuid_string id) (get k s').0
          (λ u h.
            rd.get-reads k s' (cx.uuid_string id) u t h
              (Held-live k _ t _ (Held-Later k _ t (Later-trans l (get-Later k s')) (inl e)) live))
          refl q

    claimed-wins :
        (k : String) (mine id : ℕ) (s : Server) (r : Result Bool × Server)
        → (r.0 ≡ ok true → (t : ℕ) × (time s + ttl ≤ t) × Held k (cx.uuid_string mine) t r.1)
        → (claimed cx rd k mine r).0 ≡ ok (id, true)
        → (t : ℕ) × (time s + ttl ≤ t) × Held k (cx.uuid_string id) t (claimed cx rd k mine r).1
    unfolding claimed
    claimed-wins k mine id s (err x, s') sets q = cc q
    claimed-wins k mine id s (ok true, s') sets q =
        let p : mine ≡ id = cc q in
        let (t, le, h) = sets refl in (t, le, subst (λ i. Held k (cx.uuid_string i) t s') p h)
    claimed-wins k mine id s (ok false, s') sets q = absurd (winner-loses id (get k s').0 q)

    -- A claim that wins holds its key for a day.
    pub acquire-Held :
        (key : String) (c : Claims cx rd) (id : ℕ)
        → (acquire cx rd key c).0 ≡ ok (id, true)
        → (t : ℕ) × (time c.1 + ttl ≤ t)
          × Held (key_prefix <> key) (cx.uuid_string id) t (acquire cx rd key c).1.1
    unfolding acquire
    acquire-Held key (us, s) id q =
        let k = key_prefix <> key in
        let mine = (draw_uuid cx rd us).0 in
        claimed-wins k mine id s (set_nx k (cx.uuid_string mine) ttl s)
          (rd.set_nx-sets k (cx.uuid_string mine) ttl s) q

    -- A key that is held is not won again, and an answer names its holder.
    pub acquire-taken :
        (key : String) (c : Claims cx rd) (id id' : ℕ) (new : Bool) (t : ℕ)
        → entry c.1 (key_prefix <> key) ≡ some (cx.uuid_string id, t)
        → time (acquire cx rd key c).1.1 < t
        → (acquire cx rd key c).0 ≡ ok (id', new)
        → (new ≡ false) × (id' ≡ id)
    unfolding acquire
    acquire-taken key (us, s) id id' new t e live q =
        let k = key_prefix <> key in
        let mine = (draw_uuid cx rd us).0 in
        claimed-Held k id mine id' new t s (set_nx k (cx.uuid_string mine) ttl s)
          (set_nx-Later k _ ttl s) (λ h u t'. rd.set_nx-free k _ ttl s u t' h) e live q

    -- Once a claim of a key has won, every later claim of it that is answered within a day of the
    -- first is told the id of the first, and that the key is not new, whatever other clients did
    -- between the two.
    pub acquire-once :
        (key : String) (c c' : Claims cx rd) (id id' : ℕ) (new : Bool)
        → (acquire cx rd key c).0 ≡ ok (id, true)
        → Later (acquire cx rd key c).1.1 c'.1
        → time (acquire cx rd key c').1.1 < time c.1 + ttl
        → (acquire cx rd key c').0 ≡ ok (id', new)
        → (new ≡ false) × (id' ≡ id)
    acquire-once key c c' id id' new won between soon q =
        let k = key_prefix <> key in
        let (t, day, held) = acquire-Held key c id won in
        let later = acquire-Later key c' in
        let alive : time c'.1 < t = omega (arith, later.time_le) in
        acquire-taken key c' id id' new t
          (Held-live k (cx.uuid_string id) t c'.1 (Held-Later k (cx.uuid_string id) t between held)
            alive)
          (omega arith) q
