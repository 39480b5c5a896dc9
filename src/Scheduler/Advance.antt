-- ===== src/Scheduler/Advance.antt =====
-- Where `advance_to_next_active_target` of src/scheduler.rs stops.
use phase_golem.Prelude.{
  ℕ, zero, suc, ◌+◌, ◌≤◌, ◌<◌, String, ◌≡◌, refl, sym, ◌∙◌, ◌-◌, ◌≢◌, inl, inr, true, false, some,
  List, [], ◌∷◌, arith, ◌==◌, string_eq, any, find, length, get_elem?, drop, Bool-cases,
  Option-cases,
}
use phase_golem.Types.{ItemStatus, status_eq}
use phase_golem.PgItem.{Item}
use phase_golem.PgItem.Getters.{pg_status}
use phase_golem.Scheduler.Items.{has_id}
use phase_golem.Scheduler.Target.{is_inactive, advance_over, advance_to_next_active_target}

-- A target that is worth a run.
pub record IsActive (completed : List String) (items : List Item) (target : String) : Type 0 where
  pub item : Item
  pub found : find (has_id target) items ≡ some item
  pub uncompleted : any (λ id. id == item.id) completed ≡ false
  pub unfinished : pg_status item ≢ ItemStatus.done
  pub unblocked : pg_status item ≢ ItemStatus.blocked

active_of_test :
    (completed : List String) (items : List Item) (target : String)
    → is_inactive completed items target ≡ false
    → IsActive completed items target
unfolding is_inactive
active_of_test completed items target h = elim (Option-cases (find (has_id target) items)) [
  | inl e ↦ absurd (ground arith)
  | inr (item, e) ↦ record {
    item = item;
    found = e;
    uncompleted = ground arith;
    unfinished = ground arith;
    unblocked = ground arith;
  }
]

test_of_active :
    (completed : List String) (items : List Item) (target : String)
    → IsActive completed items target
    → is_inactive completed items target ≡ false
unfolding is_inactive
test_of_active completed items target a = ground (arith, a.found, a.uncompleted)

module _ (completed : List String) (items : List Item) where
  record Stops (index : ℕ) (rest : List String) (result : ℕ) : Type 0 where
    steps : ℕ
    reached : result ≡ index + steps
    within : steps ≤ length rest
    skipped :
        (j : ℕ) (t : String)
        → j < steps
        → get_elem? rest j ≡ some t
        → is_inactive completed items t ≡ true
    stopped :
        steps < length rest
        → (t : String) × (get_elem? rest steps ≡ some t) × (is_inactive completed items t ≡ false)

  advance_over-Stops :
      (index : ℕ) (rest : List String) → Stops index rest (advance_over completed items index rest)
  unfolding advance_over
  advance_over-Stops index [] = record {
    steps = 0;
    reached = omega arith;
    within = omega arith;
    skipped = λ j t h e. absurd (omega arith);
    stopped = λ h. absurd (omega arith);
  }
  advance_over-Stops index (target ∷ rest) =
      elim (Bool-cases (is_inactive completed items target)) [
        | inl e ↦ rw e (later e (advance_over-Stops (suc index) rest))
        | inr e ↦ rw e (record {
          steps = 0;
          reached = omega arith;
          within = omega arith;
          skipped = λ j t h g. absurd (omega arith);
          stopped = λ h. (target, refl, e);
        })
      ]
    where
      skip :
          (e : is_inactive completed items target ≡ true) {r : ℕ} (s : Stops (suc index) rest r)
          (j : ℕ) (t : String)
          → j < suc s.steps
          → get_elem? (target ∷ rest) j ≡ some t
          → is_inactive completed items t ≡ true
      skip e s zero t h g = ground arith
      skip e s (suc j) t h g = s.skipped j t (omega arith) g

      later :
          is_inactive completed items target ≡ true
          → {r : ℕ} → Stops (suc index) rest r
          → Stops index (target ∷ rest) r
      later e s = record {
        steps = suc s.steps;
        reached = omega (arith, s.reached);
        within = omega (arith, s.within);
        skipped = skip e s;
        stopped = λ h. s.stopped (omega arith);
      }

get_elem?-drop {ℓ} :
    {A : Type ℓ} (n : ℕ) (xs : List A) (j : ℕ) → get_elem? (drop n xs) j ≡ get_elem? xs (n + j)
get_elem?-drop zero xs j = ground arith
get_elem?-drop (suc n) [] j = refl
get_elem?-drop (suc n) (x ∷ xs) j = ground (arith, get_elem?-drop n xs j)

length-drop_add {ℓ} :
    {A : Type ℓ} (n : ℕ) (xs : List A) → n ≤ length xs → n + length (drop n xs) ≡ length xs
length-drop_add zero xs h = omega arith
length-drop_add (suc n) [] h = absurd (omega arith)
length-drop_add (suc n) (x ∷ xs) h = omega (arith, length-drop_add n xs)

-- The first active target at or after an index, or the end of the list if there is none.
pub record IsNext (targets : List String) (from : ℕ) (completed : List String) (items : List Item)
    (r : ℕ) : Type 0 where
  pub forward : from ≤ r
  pub within : r ≤ length targets
  pub passed :
      (i : ℕ) (t : String)
      → from ≤ i
      → i < r
      → get_elem? targets i ≡ some t
      → ¬ IsActive completed items t
  pub active :
      r < length targets
      → (t : String) × (get_elem? targets r ≡ some t) × IsActive completed items t

-- The cursor moves to the first target, from its place on, that is in the store, was not completed
-- in this run, and is neither done nor blocked; or to the end of the targets, if there is none.
pub advance-IsNext :
    (targets : List String) (current : ℕ) (completed : List String) (items : List Item)
    → current ≤ length targets
    → IsNext targets current completed items
        (advance_to_next_active_target targets current completed items)
unfolding advance_to_next_active_target
advance-IsNext targets current completed items h = next
  where
    stops :
        Stops completed items current
          (drop current targets)
          (advance_over completed items current (drop current targets))
    stops = advance_over-Stops completed items current (drop current targets)

    passed_at :
        (k : ℕ) (t : String)
        → k < stops.steps
        → get_elem? targets (current + k) ≡ some t
        → ¬ IsActive completed items t
    passed_at k t less e a =
        let seen = stops.skipped k t less (get_elem?-drop current targets k ∙ e) in
        cc (seen, test_of_active completed items t a)

    next :
        IsNext targets current completed items
          (advance_over completed items current (drop current targets))
    next = record {
      forward = omega (arith, stops.reached);
      within = omega (arith, stops.reached, stops.within, length-drop_add current targets h);
      passed = λ i t from less e.
          let back : current + (i - current) ≡ i = omega arith in
          passed_at (i - current) t (omega (arith, stops.reached)) (rw back e);
      active = λ less.
          let (t, e, test) =
            stops.stopped (omega (arith, stops.reached, length-drop_add current targets h)) in
          (
            t,
            rw (stops.reached) (sym (get_elem?-drop current targets stops.steps) ∙ e),
            active_of_test completed items t test,
          );
    }
