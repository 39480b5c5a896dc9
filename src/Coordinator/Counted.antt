-- ===== src/Coordinator/Counted.antt =====
-- How often the retry of src/coordinator.rs tries an operation.
use phase_golem.Prelude.{
  ℕ, zero, suc, ◌+◌, ◌≤◌, ◌≡◌, refl, Bool, true, false, Option, none, some, Result, ok, err,
  Result-cases, Bool-cases, arith, inl, inr, ltb,
}
use phase_golem.Prelude.Actions.{Action, ◌>>=◌, ◌>>◌, recast}
use phase_golem.PgError.{TgError, PgError, internal_panic, is_retryable, from_tg}
use phase_golem.Coordinator.{World, pause, run_once, decide, attempts, with_store_retry}

abbrev pub retryable : {A : Type 0} → Result PgError A → Bool
unfolding is_retryable
retryable (ok a) = false
retryable (err e) = is_retryable e

-- At most `n` more than `a`, and `n` exactly where the error would allow another attempt.
abbrev pub Tried : ℕ → ℕ → Bool → ℕ → Type 0
Tried n a again b = (b ≤ a + n) × (again ≡ true → b ≡ a + n)

module _ {W : Type 0} (world : World W) (count : W → ℕ)
    (sleeps : (s : W) → count (world.sleep s) ≡ count s)
    (spawns : (s : W) → count (world.spawn_blocking s).1 ≡ count s) {A : Type 0}
    (op : Action TgError W A) (counts : (s : W) → count (op s).1 ≡ count s + 1) where
  paused : (n : ℕ) (s : W) → (count (pause world n s).1 ≡ count s) × ((pause world n s).0 ≡ ok tt)
  paused n s = elim (Bool-cases (ltb 0 n)) [
    | inl e ↦ rw e (sleeps s, refl)
    | inr e ↦ rw e (refl, refl)
  ]

  decided :
      (again : PgError → Action PgError W A) (n : ℕ) (s : W)
      → ((e : PgError)
          → let out = again e (op s).1 in Tried n (count (op s).1) (retryable out.0) (count out.1))
      → let out = (run_once world op >>= decide world again) s in
        Tried (suc n) (count s) (retryable out.0) (count out.1)
  unfolding is_retryable
  decided again n s h = elim (Result-cases (op s).0) [
    | inr (a, q) ↦ rw q (omega (arith, counts s), λ r. cc r)
    | inl (e, q) ↦ rw q (elim (Bool-cases (is_retryable (from_tg e))) [
      | inl t ↦ rw t (
          let k = h (from_tg e) in
          (omega (arith, counts s, k.0), λ r. omega (arith, counts s, k.1 r)))
      | inr t ↦ rw t (omega (arith, counts s), λ r. cc (t, r))
    ])
  ]

  preceded :
      (m : Action PgError W (Unit {0})) (next : Action PgError W A) (n : ℕ) (s : W)
      → count (m s).1 ≡ count s
      → ((e : PgError) → (m s).0 ≡ err e → is_retryable e ≡ false)
      → (let out = next (m s).1 in Tried n (count (m s).1) (retryable out.0) (count out.1))
      → let out = (m >> next) s in Tried n (count s) (retryable out.0) (count out.1)
  unfolding is_retryable
  preceded m next n s c last h = elim (Result-cases (m s).0) [
    | inl (e, q) ↦ rw q (omega (arith, c), λ r. cc (last e q, r))
    | inr (a, q) ↦ rw q (omega (arith, c, h.0), λ r. omega (arith, c, h.1 r))
  ]

  spawn_fails :
      (s : W) (e : PgError)
      → (recast {A = Unit {0}} internal_panic world.spawn_blocking s).0 ≡ err e
      → is_retryable e ≡ false
  unfolding is_retryable
  spawn_fails s e h = elim (Result-cases (world.spawn_blocking s).0) [
    | inl (x, q) ↦ ground (arith, h, q)
    | inr (a, q) ↦ ground (arith, h, q)
  ]

  attempts-Tried :
      (left n : ℕ) (last : Option PgError) (s : W)
      → let out = attempts world op left n last s in
        Tried left (count s) (retryable out.0) (count out.1)
  unfolding attempts is_retryable
  attempts-Tried zero n last s = (omega arith, λ r. omega arith)
  attempts-Tried (suc left) n last s =
      let s1 = (pause world n s).1 in
      preceded (pause world n) _ (suc left) s (paused n s).0 (λ e q. cc ((paused n s).1, q))
        (preceded (recast internal_panic world.spawn_blocking) _ (suc left) s1 (spawns s1)
          (spawn_fails s1)
          (decided (λ e. attempts world op left (suc n) (some e)) left (world.spawn_blocking s1).1
            (λ e. attempts-Tried left (suc n) (some e) (op (world.spawn_blocking s1).1).1)))

  -- A store operation is tried three times at most, whatever it does, and an error that allows another
  -- attempt is reported only after exactly three.
  pub with_store_retry-Tried :
      (s : W)
      → let out = with_store_retry world op s in Tried 3 (count s) (retryable out.0) (count out.1)
  unfolding with_store_retry
  with_store_retry-Tried s = attempts-Tried 3 0 none s
