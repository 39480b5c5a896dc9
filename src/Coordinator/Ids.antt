-- ===== src/Coordinator/Ids.antt =====
-- The ids of the items that the coordinator's edits leave (src/coordinator.rs).
use phase_golem.Prelude.{
  ℕ, String, ◌≡◌, refl, Bool, true, false, not, ◌&&◌, ◌||◌, Option, none, some, List, [], ◌∷◌, ◌++◌,
  any, any-append, map, find, find-some, ◌==◌, string_eq, eq_iff, arith, Bool-cases, inl, inr,
}
use phase_golem.Types.{ItemUpdate, StructuredDescription, FollowUp}
use phase_golem.PgItem.{Value, Item}
use phase_golem.PgItem.Setters.{
  set_phase, set_phase_pool, set_pipeline_type, set_last_phase_commit, apply_assessments,
  set_structured_description, set_origin, set_size, set_risk, new_from_parts,
}
use phase_golem.PgItem.Update.{apply_update, apply_transition, apply_set_blocked, apply_unblock}
use phase_golem.Scheduler.Items.{has_id}
use phase_golem.Coordinator.Edits.{
  modify_first, remove_first, restore, strip_dep, absorb, follow_up_item,
}

abbrev pub has : String → List Item → Bool
has id items = any (has_id id) items

-- No id twice.
abbrev pub distinct : List Item → Bool
distinct [] = true
distinct (i ∷ items) = not (has i.id items) && distinct items

module _ (f : Item → Item) (id : String) (keeps : (i : Item) → (f i).id ≡ i.id) where
  pub has-modify_first :
      (j : String) (items : List Item) → has j (modify_first f id items) ≡ has j items
  unfolding modify_first
  has-modify_first j [] = refl
  has-modify_first j (i ∷ items) = ground (arith, keeps i, has-modify_first j items)

  pub distinct-modify_first :
      (items : List Item) → distinct (modify_first f id items) ≡ distinct items
  unfolding modify_first
  distinct-modify_first [] = refl
  distinct-modify_first (i ∷ items) = elim (Bool-cases (i.id == id)) [
    | inl e ↦ rw (e, keeps i) refl
    | inr e ↦ rw (e, has-modify_first i.id items, distinct-modify_first items) refl
  ]

pub has-remove_first :
    (id j : String) (items : List Item)
    → has j items ≡ true
    → (id == j || has j (remove_first id items)) ≡ true
unfolding remove_first
has-remove_first id j [] h = cc
has-remove_first id j (i ∷ items) h =
    ground (arith, eq_iff i.id id, eq_iff i.id j, eq_iff id j, has-remove_first id j items)

pub remove_first-has :
    (id j : String) (items : List Item)
    → has j items ≡ false
    → has j (remove_first id items) ≡ false
unfolding remove_first
remove_first-has id j [] h = refl
remove_first-has id j (i ∷ items) h = ground (arith, remove_first-has id j items)

pub distinct-remove_first :
    (id : String) (items : List Item)
    → distinct items ≡ true
    → distinct (remove_first id items) ≡ true
unfolding remove_first
distinct-remove_first id [] h = refl
distinct-remove_first id (i ∷ items) h =
    ground (arith, remove_first-has id i.id items, distinct-remove_first id items)

pub has-map :
    (source j : String) (items : List Item) → has j (map (strip_dep source) items) ≡ has j items
unfolding strip_dep
has-map source j [] = refl
has-map source j (i ∷ items) = ground (arith, has-map source j items)

pub distinct-map :
    (source : String) (items : List Item) → distinct (map (strip_dep source) items) ≡ distinct items
unfolding strip_dep
distinct-map source [] = refl
distinct-map source (i ∷ items) =
    ground (arith, has-map source i.id items, distinct-map source items)

pub found_id :
    (id : String) (items : List Item) (i : Item) → find (has_id id) items ≡ some i → i.id ≡ id
found_id id items i h = (eq_iff i.id id).0 (find-some (has_id id) items h)

pub distinct-snoc :
    (items : List Item) (i : Item)
    → distinct items ≡ true
    → has i.id items ≡ false
    → distinct (items ++ i ∷ []) ≡ true
distinct-snoc [] i d h = refl
distinct-snoc (x ∷ items) i d h = ground (
  arith,
  any-append (has_id x.id) items (i ∷ []),
  distinct-snoc items i,
  eq_iff x.id i.id,
  eq_iff i.id x.id,
)

pub id-apply_update :
    (now : ℕ) (to_value : StructuredDescription → Value) (i : Item) (u : ItemUpdate)
    → (apply_update now to_value i u).id ≡ i.id
unfolding apply_update apply_transition apply_set_blocked apply_unblock set_phase set_phase_pool
    set_pipeline_type set_last_phase_commit apply_assessments set_structured_description
id-apply_update now to_value i u = ground arith

pub id-restore : (now : ℕ) (context : Option String) (i : Item) → (restore now context i).id ≡ i.id
unfolding restore
id-restore now none i = refl
id-restore now (some c) i = refl

pub id-absorb :
    (to_value : StructuredDescription → Value) (from_value : Value → Option StructuredDescription)
    (now : ℕ) (source i : Item)
    → (absorb to_value from_value now source i).id ≡ i.id
unfolding absorb set_structured_description
id-absorb to_value from_value now source i = refl

pub id-follow_up_item :
    (to_value : StructuredDescription → Value) (now : ℕ) (origin id : String) (fu : FollowUp)
    → (follow_up_item to_value now origin id fu).id ≡ id
unfolding follow_up_item set_origin set_size set_risk new_from_parts set_structured_description
id-follow_up_item to_value now origin id fu = ground arith
