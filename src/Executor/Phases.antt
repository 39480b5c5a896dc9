-- ===== src/Executor/Phases.antt =====
-- A list of phases with distinct names (src/config.rs) as `next_phase_in_list` of src/executor.rs
-- walks it.
use phase_golem.Prelude.{
  suc, String, ◌≡◌, refl, subst, true, false, some, List, [], ◌∷◌, ◌++◌, All, arith, any, ◌==◌,
  string_eq, eq_iff, last, position, get_elem?, length, Bool-cases, inl, inr,
}
use phase_golem.Config.{PhaseConfig}
use phase_golem.Config.Valid.{IsDistinct}
use phase_golem.Executor.{is_named, is_last_phase, next_phase_in_list}

-- The name of a phase is not that of any phase in a list.
abbrev pub IsFresh : String → List PhaseConfig → Type 0
IsFresh name = All (λ q. is_named name q ≡ false)

position-split :
    (name : String) (before : List PhaseConfig) (p : PhaseConfig) (after : List PhaseConfig)
    → IsFresh name before
    → is_named name p ≡ true
    → position (is_named name) (before ++ p ∷ after) ≡ some (length before)
position-split name [] p after h e = rw e
position-split name (b ∷ before) p after h e = rw (h.0, position-split name before p after h.1 e)

get_elem?-split :
    (before : List PhaseConfig) (p q : PhaseConfig) (after : List PhaseConfig)
    → get_elem? (before ++ p ∷ q ∷ after) (suc (length before)) ≡ some q
get_elem?-split [] p q after = refl
get_elem?-split (b ∷ before) p q after = get_elem?-split before p q after

last-cons-append :
    (before : List PhaseConfig) (b q : PhaseConfig) (after : List PhaseConfig)
    → last (b ∷ (before ++ q ∷ after)) ≡ last (q ∷ after)
last-cons-append [] b q after = refl
last-cons-append (c ∷ before) b q after = last-cons-append before c q after

pub last-append :
    (before : List PhaseConfig) (q : PhaseConfig) (after : List PhaseConfig)
    → last (before ++ q ∷ after) ≡ last (q ∷ after)
last-append [] q after = refl
last-append (b ∷ before) q after = last-cons-append before b q after

-- The phase after the one that is named, in a list that names it once.
pub next_phase_in_list-split :
    (before : List PhaseConfig) (p q : PhaseConfig) (after : List PhaseConfig)
    → IsFresh p.name before
    → next_phase_in_list (before ++ p ∷ q ∷ after) p.name ≡ some q.name
unfolding next_phase_in_list
next_phase_in_list-split before p q after h = ground (
  arith,
  position-split p.name before p (q ∷ after) h ((eq_iff p.name p.name).1 refl),
  get_elem?-split before p q after,
)

pub is_last_phase-fresh :
    (name : String) (q : PhaseConfig) (after : List PhaseConfig)
    → IsFresh name (q ∷ after)
    → is_last_phase (q ∷ after) name ≡ false
is_last_phase-fresh name q [] h = h.0
is_last_phase-fresh name q (r ∷ after) h = is_last_phase-fresh name r after h.1

-- A name that was seen differs from one that was not.
seen_ne_unseen :
    (seen : List String) (a b : String)
    → any (λ t. t == a) seen ≡ true
    → any (λ t. t == b) seen ≡ false
    → (a == b) ≡ false
seen_ne_unseen seen a b h k = elim (Bool-cases (a == b)) [
  | inl e ↦ let h' = subst (λ x. any (λ t. t == x) seen ≡ true) ((eq_iff a b).0 e) h in cc (h', k)
  | inr e ↦ e
]

eq_false_sym : (a b : String) → (a == b) ≡ false → (b == a) ≡ false
eq_false_sym a b h = ground (arith, eq_iff a b, eq_iff b a)

-- Names that differ from those seen before are fresh for what was seen.
IsDistinct-IsFresh :
    (seen : List String) (ps : List PhaseConfig) (name : String)
    → any (λ s. s == name) seen ≡ true
    → IsDistinct seen ps
    → IsFresh name ps
IsDistinct-IsFresh seen [] name m d = tt
IsDistinct-IsFresh seen (p ∷ ps) name m d = (
  eq_false_sym name p.name (seen_ne_unseen seen name p.name m d.0),
  IsDistinct-IsFresh (p.name ∷ seen) ps name (ground arith) d.1,
)

pub IsDistinct-after :
    (seen : List String) (before : List PhaseConfig) (p : PhaseConfig) (after : List PhaseConfig)
    → IsDistinct seen (before ++ p ∷ after)
    → IsFresh p.name after
IsDistinct-after seen [] p after d =
    IsDistinct-IsFresh (p.name ∷ seen) after p.name (ground (arith, eq_iff p.name p.name)) d.1
IsDistinct-after seen (b ∷ before) p after d = IsDistinct-after (b.name ∷ seen) before p after d.1

seen_differs :
    (seen : List String) (before : List PhaseConfig) (p : PhaseConfig) (after : List PhaseConfig)
    → IsDistinct seen (before ++ p ∷ after)
    → (s : String) → any (λ t. t == s) seen ≡ true
    → (s == p.name) ≡ false
seen_differs seen [] p after d s m = seen_ne_unseen seen s p.name m d.0
seen_differs seen (b ∷ before) p after d s m =
    seen_differs (b.name ∷ seen) before p after d.1 s (ground arith)

pub IsDistinct-before :
    (seen : List String) (before : List PhaseConfig) (p : PhaseConfig) (after : List PhaseConfig)
    → IsDistinct seen (before ++ p ∷ after)
    → IsFresh p.name before
IsDistinct-before seen [] p after d = tt
IsDistinct-before seen (b ∷ before) p after d = (
  seen_differs (b.name ∷ seen) before p after d.1 b.name (ground (arith, eq_iff b.name b.name)),
  IsDistinct-before (b.name ∷ seen) before p after d.1,
)

pub IsDistinct-drop :
    (seen : List String) (xs ys : List PhaseConfig)
    → IsDistinct seen (xs ++ ys)
    → (seen' : List String) × IsDistinct seen' ys
IsDistinct-drop seen [] ys d = (seen, d)
IsDistinct-drop seen (x ∷ xs) ys d = IsDistinct-drop (x.name ∷ seen) xs ys d.1

pub is_last_phase-end :
    (before : List PhaseConfig) (p : PhaseConfig) → is_last_phase (before ++ p ∷ []) p.name ≡ true
is_last_phase-end before p =
    rw (last-append before p [], is_last_phase) ((eq_iff p.name p.name).1 refl)

pub is_last_phase-middle :
    (before : List PhaseConfig) (p q : PhaseConfig) (after : List PhaseConfig)
    → IsFresh p.name (q ∷ after)
    → is_last_phase (before ++ p ∷ q ∷ after) p.name ≡ false
is_last_phase-middle before p q after h =
    rw (last-append before p (q ∷ after), is_last_phase) (is_last_phase-fresh p.name q after h)
