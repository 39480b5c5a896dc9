-- ===== src/Prelude/Actions.antt =====
-- Actions on a state that may fail. What was done before a failure stays done, so the state comes
-- back with the error too. `Follows` says which change an action makes, on every outcome.
use mathlib.Core.Path.{◌≡◌, refl}
use mathlib.Core.Bool.{Bool, true, false}
use mathlib.Core.Option.{Option, none, some}
use phase_golem.Prelude.Tests.{if◌then◌else◌}
use phase_golem.Prelude.Errors.{Result, ok, err, map_err}

abbrev pub Action : Type 0 → Type 0 → Type 0 → Type 0
Action E S A = S → Result E A × S

-- What follows a result: the next action, or nothing after an error.
abbrev pub resume : {E S A B : Type 0} → Result E A → (A → Action E S B) → Action E S B
resume (ok a) next s = next a s
resume (err e) next s = (err e, s)

infixl 5 ◌>>=◌ ◌>>◌
abbrev pub ◌>>=◌ : {E S A B : Type 0} → Action E S A → (A → Action E S B) → Action E S B
◌>>=◌ m next s = resume (m s).0 next (m s).1

abbrev pub ◌>>◌ : {E S B : Type 0} → Action E S (Unit {0}) → Action E S B → Action E S B
m >> n = m >>= λ _. n

abbrev pub done : {E S A : Type 0} → A → Action E S A
done a s = (ok a, s)

abbrev pub fail : {E S A : Type 0} → E → Action E S A
fail e s = (err e, s)

abbrev pub skip : {E S : Type 0} → Action E S (Unit {0})
skip s = (ok tt, s)

abbrev pub modify : {E S : Type 0} → (S → S) → Action E S (Unit {0})
modify f s = (ok tt, f s)

abbrev pub reads : {E S A : Type 0} → (S → A) → Action E S A
reads f s = (ok (f s), s)

abbrev pub or_fail : {E S A : Type 0} → E → Option A → Action E S A
or_fail e none = fail e
or_fail e (some a) = done a

-- `let _ = …`, `.ok()`: the error is dropped.
abbrev pub attempt : {E F S A : Type 0} → Action E S A → Action F S (Unit {0})
attempt m s = (ok tt, (m s).1)

-- `map_err`.
abbrev pub recast : {E F S A : Type 0} → (E → F) → Action E S A → Action F S A
recast f m s = (map_err f (m s).0, (m s).1)

-- A part of the state is changed by an action on it.
abbrev pub zoom : {E S T A : Type 0} → (S → T) → (T → S → S) → Action E T A → Action E S A
zoom get put m s = ((m (get s)).0, put (m (get s)).1 s)

-- Every run of the action, whether it fails or not, ends in a state that is related to the first.
pub record Follows {E S A : Type 0} (R : S → S → Type 0) (m : Action E S A) : Type 0 where
  pub at : (s : S) → R s (m s).1

-- A relation that holds of what changes nothing and of two changes in a row.
pub record IsOrder {S : Type 0} (R : S → S → Type 0) : Type 0 where
  pub stays : (s : S) → R s s
  pub joins : (a b c : S) → R a b → R b c → R a c

module _ {S : Type 0} {R : S → S → Type 0} (o : IsOrder R) where
  pub Follows-done : {E A : Type 0} (a : A) → Follows R (done {E = E} a)
  Follows-done a = record { at = o.stays }

  pub Follows-fail : {E A : Type 0} (e : E) → Follows R (fail {A = A} e)
  Follows-fail e = record { at = o.stays }

  pub Follows-or_fail : {E A : Type 0} (e : E) (a : Option A) → Follows R (or_fail e a)
  Follows-or_fail e none = Follows-fail e
  Follows-or_fail e (some a) = Follows-done a

  resume-at :
      {E A B : Type 0} (r : Result E A) (next : A → Action E S B)
      → ((a : A) → Follows R (next a))
      → (s : S) → R s (resume r next s).1
  resume-at (ok a) next h s = (h a).at s
  resume-at (err e) next h s = o.stays s

  pub Follows-bind :
      {E A B : Type 0} (m : Action E S A) (next : A → Action E S B)
      → Follows R m
      → ((a : A) → Follows R (next a))
      → Follows R (m >>= next)
  Follows-bind m next first later = record {
    at = λ s.
        o.joins s (m s).1 (resume (m s).0 next (m s).1).1 (first.at s)
          (resume-at (m s).0 next later (m s).1);
  }

  -- The same at one state, where the first action's result is known.
  pub bind-at :
      {E A B : Type 0} (m : Action E S A) (next : A → Action E S B) (s : S)
      → R s (m s).1
      → ((a : A) → (m s).0 ≡ ok a → R (m s).1 (next a (m s).1).1)
      → R s ((m >>= next) s).1
  bind-at m next s first later = o.joins s (m s).1 ((m >>= next) s).1 first (go (m s).0 refl)
    where
      go : (r : Result _ _) → (m s).0 ≡ r → R (m s).1 (resume r next (m s).1).1
      go (ok a) e = later a e
      go (err x) e = o.stays (m s).1

  pub Follows-seq :
      {E B : Type 0} (m : Action E S (Unit {0})) (n : Action E S B)
      → Follows R m
      → Follows R n
      → Follows R (m >> n)
  Follows-seq m n first later = Follows-bind m (λ _. n) first (λ _. later)

module _ {S : Type 0} {R : S → S → Type 0} where
  pub Follows-attempt :
      {E F A : Type 0} (m : Action E S A) → Follows R m → Follows R (attempt {F = F} m)
  Follows-attempt m h = record { at = h.at }

  pub Follows-recast :
      {E F A : Type 0} (f : E → F) (m : Action E S A) → Follows R m → Follows R (recast f m)
  Follows-recast f m h = record { at = h.at }

  pub Follows-if :
      {E A : Type 0} (b : Bool) (m n : Action E S A)
      → Follows R m
      → Follows R n
      → Follows R (if b then m else n)
  Follows-if true m n first second = first
  Follows-if false m n first second = second
