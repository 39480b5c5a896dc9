-- ===== src/Preflight/Unique.antt =====
-- When `validate_duplicate_ids` (src/preflight.rs) reports nothing.
use phase_golem.Prelude.{
  ℕ, suc, ◌≤◌, String, ◌≡◌, refl, ◌↔◌, Bool, false, ◌||◌, List, [], ◌∷◌, any, All, All-both, map,
  filter, length, length-append, ◌==◌, string_eq, arith, Bool-cases, inl, inr, sort_by,
  insert_sorted, ◌≢◌, eq_iff,
}
use phase_golem.PgItem.{Item}
use phase_golem.Preflight.{
  push_index, id_indices, is_duplicate, by_first, duplicate_error, validate_duplicate_ids,
}

abbrev Entries : Type 0
Entries = List (String × List ℕ)

abbrev has : String → Entries → Bool
has id m = any (λ e. e.0 == id) m

abbrev IsFilled : Entries → Type 0
IsFilled m = All (λ e. 1 ≤ length e.1) m

-- Ids that differ from each other.
abbrev pub AreUnique : List Item → Type 0
AreUnique [] = Unit
AreUnique (item ∷ items) = All (λ d. (item.id == d.id) ≡ false) items × AreUnique items

has-push_index :
    (id j : String) (i : ℕ) (m : Entries) → has j (push_index id i m) ≡ (has j m || id == j)
unfolding push_index
has-push_index id j i [] = ground arith
has-push_index id j i ((k, is) ∷ m) = elim (Bool-cases (k == id)) [
  | inl e ↦ let same = (eq_iff k id).0 e in rw (e, same) (ground arith)
  | inr e ↦ rw e (ground (arith, has-push_index id j i m))
]

push_index-IsFilled :
    (id : String) (i : ℕ) (m : Entries) → IsFilled m → IsFilled (push_index id i m)
unfolding push_index
push_index-IsFilled id i [] h = (omega arith, tt)
push_index-IsFilled id i ((k, is) ∷ m) h = elim (Bool-cases (k == id)) [
  | inl e ↦ rw e (omega (arith, length-append is (i ∷ [])), h.1)
  | inr e ↦ rw e (h.0, push_index-IsFilled id i m h.1)
]

filter-push_index :
    (id : String) (i : ℕ) (m : Entries)
    → IsFilled m
    → (filter is_duplicate (push_index id i m) ≡ [])
      ↔ ((filter is_duplicate m ≡ []) × (has id m ≡ false))
unfolding push_index
filter-push_index id i [] h = (λ e. (refl, refl), λ e. refl)
filter-push_index id i ((k, is) ∷ m) h = elim (Bool-cases (k == id)) [
  | inl e ↦ rw e (ground (arith, h.0, length-append is (i ∷ [])))
  | inr e ↦ rw e (ground (arith, filter-push_index id i m h.1))
]

IsNew-push_index :
    (item : Item) (i : ℕ) (m : Entries) (d : Item)
    → (has d.id (push_index item.id i m) ≡ false)
      ↔ ((has d.id m ≡ false) × ((item.id == d.id) ≡ false))
IsNew-push_index item i m d = ground (arith, has-push_index item.id d.id i m)

id_indices_iff :
    (i : ℕ) (m : Entries) (items : List Item)
    → IsFilled m
    → (filter is_duplicate (id_indices i m items) ≡ [])
      ↔ ((filter is_duplicate m ≡ []) × All (λ d. has d.id m ≡ false) items × AreUnique items)
unfolding id_indices
id_indices_iff i m [] f = (λ h. (h, tt, tt), λ h. h.0)
id_indices_iff i m (item ∷ items) f =
    let next = push_index item.id i m in
    let rest = id_indices_iff (suc i) next items (push_index-IsFilled item.id i m f) in
    let step = filter-push_index item.id i m f in
    let new =
      All-both (λ d. has d.id next ≡ false) (λ d. has d.id m ≡ false)
        (λ d. (item.id == d.id) ≡ false) (IsNew-push_index item i m) items in
    (
      λ h.
          let r = rest.0 h in
          let s = step.0 r.0 in let n = new.0 r.1 in (s.0, (s.1, n.0), (n.1, r.2)),
      λ h. rest.1 (step.1 (h.0, h.1.0), new.1 (h.1.1, h.2.0), h.2.1),
    )

insert_sorted-cons : (e : String × List ℕ) (es : Entries) → insert_sorted by_first e es ≢ []
insert_sorted-cons e [] = λ h. cc
insert_sorted-cons e (x ∷ es) = ground arith

map-nil : (es : Entries) → map duplicate_error es ≡ [] → es ≡ []
map-nil [] h = refl
map-nil (e ∷ es) h = cc

all-has : (items : List Item) → All (λ d. has d.id [] ≡ false) items
all-has [] = tt
all-has (d ∷ items) = (refl, all-has items)

errors-nil : (es : Entries) → (map duplicate_error (sort_by by_first es) ≡ []) ↔ (es ≡ [])
errors-nil [] = (λ h. refl, λ h. refl)
errors-nil (e ∷ es) =
    (λ h. absurd (insert_sorted-cons e (sort_by by_first es) (map-nil _ h)), λ h. cc)

-- No duplicate is reported exactly when the ids of the items differ from each other.
pub validate_duplicate_ids_iff :
    (items : List Item) → (validate_duplicate_ids items ≡ []) ↔ AreUnique items
unfolding validate_duplicate_ids
validate_duplicate_ids_iff items =
    let none = errors-nil (filter is_duplicate (id_indices 0 [] items)) in
    let unique = id_indices_iff 0 [] items tt in
    (λ h. (unique.0 (none.0 h)).2, λ h. none.1 (unique.1 (refl, all-has items, h)))
