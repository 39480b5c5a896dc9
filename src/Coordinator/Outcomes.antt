-- ===== src/Coordinator/Outcomes.antt =====
-- What the handlers of src/coordinator.rs that change the active items in place have done when they
-- succeed, and that they leave the store alone when they fail.
use phase_golem.Prelude.{
  ℕ, String, ◌≡◌, refl, ◌∙◌, ap, subst, true, Option, none, some, List, [], ◌∷◌, find, map, ◌==◌,
  string_eq, eq_iff, arith, inl, inr, if◌then◌else◌,
}
use phase_golem.Types.{status_eq, StructuredDescription, ItemUpdate}
use phase_golem.PgItem.{Value, Item}
use phase_golem.PgItem.Update.{apply_update}
use phase_golem.PgError.{TgError}
use phase_golem.Scheduler.Items.{has_id}
use phase_golem.Coordinator.{World}
use phase_golem.Coordinator.Edits.{modify_first}
use phase_golem.Coordinator.Ids.{has, id-apply_update}
use phase_golem.Coordinator.Laws.{View, Same, WorldLaws}
use phase_golem.Coordinator.Steps.{Whole, untouched_order, started, chosen, with_store_retry-Whole}
use phase_golem.Coordinator.Store.{update_body, handle_update_item}

-- The store as a map from ids to items.
abbrev pub stored : String → List Item → Option Item
stored id items = find (has_id id) items

abbrev pub mapped : (Item → Item) → Option Item → Option Item
mapped f none = none
mapped f (some i) = some (f i)

abbrev pub ids_of : List Item → List String
ids_of items = map (λ i. i.id) items

module _ (f : Item → Item) (id : String) (keeps : (i : Item) → (f i).id ≡ i.id) where
  stored-modify_first :
      (j : String) (items : List Item)
      → stored j (modify_first f id items)
        ≡ (if j == id then mapped f (stored j items) else stored j items)
  unfolding modify_first
  stored-modify_first j [] = ground arith
  stored-modify_first j (i ∷ items) =
      ground
        (arith, keeps i, eq_iff i.id id, eq_iff i.id j, eq_iff j id, stored-modify_first j items)

  ids_of-modify_first : (items : List Item) → ids_of (modify_first f id items) ≡ ids_of items
  unfolding modify_first
  ids_of-modify_first [] = refl
  ids_of-modify_first (i ∷ items) = ground (arith, keeps i, ids_of-modify_first items)

-- The item with the id, which was there, is changed by `f` at the time `now`; no other is, nor their
-- order, nor the archive.
pub record Changed {W : Type 0} (v : View W) (id : String) (f : ℕ → Item → Item) (a b : W)
    : Type 0 where
  pub now : ℕ
  pub there : has id (v.active a) ≡ true
  pub stores :
      (j : String)
      → stored j (v.active b)
        ≡ (if j == id then mapped (f now) (stored j (v.active a)) else stored j (v.active a))
  pub ordered : ids_of (v.active b) ≡ ids_of (v.active a)
  pub archived : v.archive b ≡ v.archive a

found-has :
    (id : String) (items : List Item) (item : Item)
    → stored id items ≡ some item
    → has id items ≡ true
found-has id [] item h = cc h
found-has id (i ∷ items) item h = ground (arith, found-has id items item, h)

module _ {W : Type 0} (world : World W) (v : View W) (laws : WorldLaws world v) where
  edited :
      (id : String) (f : ℕ → Item → Item) (keeps : (now : ℕ) (i : Item) → (f now i).id ≡ i.id)
      (now : ℕ) (s m b : W)
      → Same v s m
      → has id (v.active m) ≡ true
      → v.active b ≡ modify_first (f now) id (v.active m)
      → v.archive b ≡ v.archive m
      → Changed v id f s b
  edited id f keeps now s m b h there e k = record {
    now = now;
    there = subst (λ z. has id z ≡ true) h.0 there;
    stores = λ j. rw (e, h.0) (stored-modify_first (f now) id (keeps now) j (v.active s));
    ordered = rw (e, h.0) (ids_of-modify_first (f now) id (keeps now) (v.active s));
    archived = k ∙ h.1;
  }

  since :
      (id : String) (f : ℕ → Item → Item) (s m : W) (a : Unit {0}) (b : W)
      → Same v s m
      → Changed v id f m b
      → Changed v id f s b
  since id f s m a b h c = record {
    now = c.now;
    there = subst (λ z. has id z ≡ true) h.0 c.there;
    stores =
        subst
          (λ z.
            (j : String)
            → stored j (v.active b)
              ≡ (if j == id then mapped (f c.now) (stored j z) else stored j z))
          h.0 c.stores;
    ordered = c.ordered ∙ ap ids_of h.0;
    archived = c.archived ∙ h.1;
  }

  update_body-Whole :
      (id : String) (f : ℕ → Item → Item)
      → ((now : ℕ) (i : Item) → (f now i).id ≡ i.id)
      → (s : W) → Whole v (λ a _ b. Changed v id f a b) s (update_body world id f s)
  unfolding update_body
  update_body-Whole id f keeps s =
      let Q = Whole {E = TgError} v (λ a (_ : Unit {0}) b. Changed v id f a b) s in
      started world v laws Q _ s (λ e b h. inr (e, refl, h))
        (λ m h.
          chosen world v laws Q _ (find (has_id id) (v.active m)) _ m (inr (_, refl, h)) (λ item q.
            elim (laws.save_law (modify_first (f (world.now m)) id (v.active m)) m) [
              | inl (r, e, k) ↦ inl (
                tt,
                r,
                edited id f keeps (world.now m) s m _ h (found-has id (v.active m) item q) e k,
              )
              | inr (e, r, k) ↦ inr (e, r, (untouched_order v).joins s m _ h k)
            ]))

  -- An update of an item changes that item as `apply_update` does, and nothing else, where it succeeds;
  -- it leaves the store as it was where it fails, however often it was tried.
  pub handle_update_item-Whole :
      (to_value : StructuredDescription → Value) (id : String) (u : ItemUpdate) (s : W)
      → Whole v
          (λ a _ b. Changed v id (λ now i. apply_update now to_value i u) a b)
          s
          (handle_update_item world to_value id u s)
  unfolding handle_update_item
  handle_update_item-Whole to_value id u =
      with_store_retry-Whole world v laws _ _
        (update_body-Whole id _ (λ now i. id-apply_update now to_value i u)) (since id _)
