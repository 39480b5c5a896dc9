-- ===== src/Coordinator/Attempts.antt =====
-- How the retry of src/coordinator.rs ends: with the outcome of one attempt, in the state before or
-- after it, and within three attempts.
use phase_golem.Prelude.{
  ℕ, zero, suc, ◌≡◌, refl, Option, none, some, Result, ok, err, Result-cases, Bool-cases, inl, inr,
  ◌⊎◌, ltb,
}
use phase_golem.Prelude.Actions.{
  Action, ◌>>=◌, ◌>>◌, skip, modify, recast, Follows, IsOrder, Follows-if, Follows-done,
}
use phase_golem.PgError.{TgError, PgError, internal_panic, is_retryable, from_tg}
use phase_golem.Coordinator.{World, pause, run_once, decide, attempts, with_store_retry}

-- A result comes from one attempt, and what led to it, as what leads to an error, is related by `R`.
abbrev pub Landed :
    {W A : Type 0} → (W → W → Type 0) → Action TgError W A → W → Result PgError A × W → Type 0
Landed {W} {A} R op s (r, b) =
    ((a : A) × (m : W) × (r ≡ ok a) × R s m × (op m ≡ (ok a, b)))
    ⊎ ((e : PgError) × (r ≡ err e) × R s b)

module _ {W : Type 0} (world : World W) {R : W → W → Type 0} (o : IsOrder R)
    (slept : (s : W) → R s (world.sleep s)) (spawned : Follows R world.spawn_blocking) where
  paused : (n : ℕ) (s : W) → R s (pause world n s).1
  paused n =
      (Follows-if (ltb 0 n) (modify world.sleep) skip (record { at = slept })
        (Follows-done o tt)).at

  module _ {A : Type 0} (op : Action TgError W A)
      (failed : (s : W) (e : TgError) → (op s).0 ≡ err e → R s (op s).1) where
    since : (a b : W) (out : Result PgError A × W) → R a b → Landed R op b out → Landed R op a out
    since a b out h (inl (x, m, e, r, q)) = inl (x, m, e, o.joins a b m h r, q)
    since a b out h (inr (x, e, r)) = inr (x, e, o.joins a b out.1 h r)

    preceded :
        (m : Action PgError W (Unit {0})) (next : Action PgError W A) (s : W)
        → R s (m s).1
        → Landed R op (m s).1 (next (m s).1)
        → Landed R op s ((m >> next) s)
    preceded m next s h k = elim (Result-cases (m s).0) [
      | inl (e, q) ↦ rw q (inr (e, refl, h))
      | inr (a, q) ↦ rw q (since s (m s).1 (next (m s).1) h k)
    ]

    decided :
        (again : PgError → Action PgError W A) (s : W)
        → ((e : PgError) → Landed R op (op s).1 (again e (op s).1))
        → Landed R op s ((run_once world op >>= decide world again) s)
    decided again s h = elim (Result-cases (op s).0) [
      | inr (a, q) ↦ rw q (inl (a, s, refl, o.stays s, cc q))
      | inl (e, q) ↦ rw q (elim (Bool-cases (is_retryable (from_tg e))) [
        | inl t ↦
            rw t (since s (op s).1 (again (from_tg e) (op s).1) (failed s e q) (h (from_tg e)))
        | inr t ↦ rw t (inr (from_tg e, refl, failed s e q))
      ])
    ]

    pub attempts-Landed :
        (left n : ℕ) (last : Option PgError) (s : W)
        → Landed R op s (attempts world op left n last s)
    unfolding attempts
    attempts-Landed zero n last s = inr (_, refl, o.stays s)
    attempts-Landed (suc left) n last s = preceded (pause world n) _ s (paused n s) (
        preceded (recast internal_panic world.spawn_blocking) _ (pause world n s).1
          (spawned.at (pause world n s).1)
          (decided (λ e. attempts world op left (suc n) (some e))
            (world.spawn_blocking (pause world n s).1).1
            (λ e.
              attempts-Landed left (suc n) (some e)
                (op (world.spawn_blocking (pause world n s).1).1).1)))

    pub with_store_retry-Landed : (s : W) → Landed R op s (with_store_retry world op s)
    unfolding with_store_retry
    with_store_retry-Landed s = attempts-Landed 3 0 none s
