-- ===== src/Scheduler/Dependencies.antt =====
-- Dependencies of an item (src/scheduler.rs).
use phase_golem.Prelude.{
  String, ◌≡◌, refl, ◌↔◌, Option, some, none, List, [], ◌∷◌, arith, All, find, Option-cases, inl,
  inr,
}
use phase_golem.Types.{ItemStatus, status_eq}
use phase_golem.PgItem.{Item}
use phase_golem.PgItem.Getters.{pg_status}
use phase_golem.Scheduler.Items.{has_id, unmet_deps, unmet_dep_summary}

-- A dependency is met if no item has its id, or the first that has it is done.
abbrev pub Met : Option Item → Type 0
Met none = Unit
Met (some item) = pg_status item ≡ ItemStatus.done

abbrev pub AllMet : List Item → Item → Type 0
AllMet all_items item = All (λ d. Met (find (has_id d) all_items)) item.dependencies

unmet_deps_iff :
    (all_items : List Item) (ds : List String)
    → (unmet_deps all_items ds ≡ []) ↔ All (λ d. Met (find (has_id d) all_items)) ds
unfolding unmet_deps
unmet_deps_iff all_items [] = (λ h. tt, λ h. refl)
unmet_deps_iff all_items (d ∷ ds) = elim (Option-cases (find (has_id d) all_items)) [
  | inl e ↦ rw e (ground (arith, unmet_deps_iff all_items ds))
  | inr (item, e) ↦ rw e (ground (arith, unmet_deps_iff all_items ds))
]

-- There is no summary of unmet dependencies exactly when each dependency is met: no item has its
-- id, or the first one that has it is done.
pub unmet_dep_summary_iff :
    (item : Item) (all_items : List Item)
    → (unmet_dep_summary item all_items ≡ none) ↔ AllMet all_items item
unfolding unmet_dep_summary
unmet_dep_summary_iff item all_items = ground (arith, unmet_deps_iff all_items item.dependencies)
