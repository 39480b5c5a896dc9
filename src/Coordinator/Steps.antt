-- ===== src/Coordinator/Steps.antt =====
-- The steps that the store closures of src/coordinator.rs share, as rules for a predicate `Q` on the
-- outcome of a closure.
use phase_golem.Prelude.{
  ◌≡◌, refl, sym, ◌∙◌, subst, Option, none, some, List, [], ◌∷◌, ◌++◌, Result, ok, err,
  Result-cases, inl, inr, ◌⊎◌,
}
use phase_golem.Prelude.Actions.{Action, ◌>>=◌, ◌>>◌, done, or_fail, IsOrder}
use phase_golem.PgItem.{Item}
use phase_golem.PgError.{TgError}
use phase_golem.Coordinator.{World, with_store_retry}
use phase_golem.Coordinator.Laws.{View, Same, WorldLaws}
use phase_golem.Coordinator.Attempts.{with_store_retry-Landed}

-- An action that either did what `Did` says or left the items as they were.
abbrev pub Whole : {W E A : Type 0} → View W → (W → A → W → Type 0) → W → Result E A × W → Type 0
Whole {W} {E} {A} v Did s (r, b) =
    ((a : A) × (r ≡ ok a) × Did s a b) ⊎ ((e : E) × (r ≡ err e) × Same v s b)

module _ {W : Type 0} (v : View W) where
  pub untouched_order : IsOrder (Same v)
  untouched_order = record {
    stays = λ s. (refl, refl);
    joins = λ a b c f g. (g.0 ∙ f.0, g.1 ∙ f.1);
  }

  module _ {E A : Type 0} (Did : W → A → W → Type 0) (s : W) (r : Result E A) (b : W) where
    pub Whole-err : Whole v Did s (r, b) → (e : E) → r ≡ err e → Same v s b
    Whole-err (inl (a, p, d)) e q = cc (p, q)
    Whole-err (inr (x, p, h)) e q = h

    pub Whole-ok : Whole v Did s (r, b) → (a : A) → r ≡ ok a → Did s a b
    Whole-ok (inl (x, p, d)) a q = let same : x ≡ a = cc (p, q) in subst (λ z. Did s z b) same d
    Whole-ok (inr (x, p, h)) a q = cc (p, q)

module _ {W : Type 0} (world : World W) (v : View W) (laws : WorldLaws world v) where
  pub started :
      {A : Type 0} (Q : Result TgError A × W → Type 0) (next : List Item → Action TgError W A)
      (s : W)
      → ((e : TgError) (b : W) → Same v s b → Q (err e, b))
      → ((b : W) → Same v s b → Q (next (v.active b) b))
      → Q ((world.lock >> (world.load_active >>= next)) s)
  started Q next s bad good =
      let s1 = (world.lock s).1 in
      let locked = laws.lock_law.at s in
      let both =
        (untouched_order v).joins s s1 (world.load_active s1).1 locked (laws.load_law.at s1) in
      elim (Result-cases (world.lock s).0) [
        | inl (e, q) ↦ rw q (bad e s1 locked)
        | inr (a, q) ↦ rw q (elim (Result-cases (world.load_active s1).0) [
          | inl (e, p) ↦ rw p (bad e (world.load_active s1).1 both)
          | inr (xs, p) ↦ rw p (
              subst (λ z. Q (next z (world.load_active s1).1))
                ((laws.load_law.at s1).0 ∙ sym (laws.load_reads s1 xs p))
                (good (world.load_active s1).1 both))
        ])
      ]

  pub chosen :
      {A : Type 0} (Q : Result TgError A × W → Type 0) (e : TgError) (o : Option Item)
      (next : Item → Action TgError W A) (s : W)
      → Q (err e, s)
      → ((item : Item) → o ≡ some item → Q (next item s))
      → Q ((or_fail e o >>= next) s)
  chosen Q e none next s bad good = bad
  chosen Q e (some item) next s bad good = good item refl

  pub kept_or_saved :
      {A : Type 0} (Q : Result TgError A × W → Type 0) (xs : List Item) (a : A) (s : W)
      → ((e : TgError) (b : W) → Same v s b → Q (err e, b))
      → ((b : W) → v.active b ≡ xs → v.archive b ≡ v.archive s → Q (ok a, b))
      → Q ((world.save_active xs >> done a) s)
  kept_or_saved Q xs a s bad good = elim (laws.save_law xs s) [
    | inl (q, h, k) ↦ rw q (good (world.save_active xs s).1 h k)
    | inr (e, q, h) ↦ rw q (bad e (world.save_active xs s).1 h)
  ]

  pub kept_or_appended :
      {A : Type 0} (Q : Result TgError A × W → Type 0) (item : Item) (next : Action TgError W A)
      (s : W)
      → ((e : TgError) (b : W) → Same v s b → Q (err e, b))
      → ((b : W) → v.active b ≡ v.active s → v.archive b ≡ v.archive s ++ item ∷ [] → Q (next b))
      → Q ((world.append_to_archive item >> next) s)
  kept_or_appended Q item next s bad good = elim (laws.append_law item s) [
    | inl (q, h, k) ↦ rw q (good (world.append_to_archive item s).1 h k)
    | inr (e, q, h) ↦ rw q (bad e (world.append_to_archive item s).1 h)
  ]

  -- What holds of every single attempt holds of the retry.
  pub with_store_retry-Whole :
      {A : Type 0} (Did : W → A → W → Type 0) (op : Action TgError W A)
      → ((s : W) → Whole v Did s (op s))
      → ((s m : W) (a : A) (b : W) → Same v s m → Did m a b → Did s a b)
      → (s : W) → Whole v Did s (with_store_retry world op s)
  with_store_retry-Whole Did op each since s =
      elim (with_store_retry-Landed world (untouched_order v) laws.sleep_law laws.spawn_law op
        (λ m e q. Whole-err v Did m (op m).0 (op m).1 (each m) e q) s) [
          | inl (a, m, q, h, p) ↦ inl (
            a,
            q,
            since s m a _ h
                (Whole-ok v Did m (ok a) _ (subst (λ z. Whole v Did m z) p (each m)) a refl),
          )
          | inr (e, q, h) ↦ inr (e, q, h)
        ]
