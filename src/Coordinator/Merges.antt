-- ===== src/Coordinator/Merges.antt =====
-- Where the items are after a merge of src/coordinator.rs succeeded.
use phase_golem.Prelude.{
  ℕ, String, ◌≡◌, ◌≢◌, refl, sym, ◌∙◌, subst, Bool, true, false, not, Option, some, List, [], ◌∷◌,
  any, any-append, find, filter, map, ◌==◌, string_eq, eq_iff, Result, ok, Bool-cases, arith, inl,
  inr,
}
use phase_golem.Types.{StructuredDescription}
use phase_golem.PgItem.{Value, Item}
use phase_golem.PgError.{TgError}
use phase_golem.Scheduler.Items.{has_id}
use phase_golem.Coordinator.{World}
use phase_golem.Coordinator.Edits.{modify_first, remove_first, strip_dep, absorb}
use phase_golem.Coordinator.Ids.{
  has, distinct, found_id, id-absorb, has-map, has-modify_first, has-remove_first,
}
use phase_golem.Coordinator.Laws.{View, WorldLaws}
use phase_golem.Coordinator.Sound.{merge_body-Sound}
use phase_golem.Coordinator.Steps.{started, chosen, kept_or_appended}
use phase_golem.Coordinator.Store.{merge_body, handle_merge_item}
use phase_golem.Coordinator.Moves.{Moved, gone-remove_first, retried}

abbrev pub depends_on : String → Item → Bool
depends_on id i = any (λ d. d == id) i.dependencies

no_dep :
    (id : String) (deps : List String)
    → any (λ d. d == id) (filter (λ d. not (d == id)) deps) ≡ false
no_dep id [] = refl
no_dep id (d ∷ deps) = ground (arith, no_dep id deps)

no_dependents :
    (id : String) (items : List Item) → any (depends_on id) (map (strip_dep id) items) ≡ false
unfolding strip_dep
no_dependents id [] = refl
no_dependents id (i ∷ items) = ground (arith, no_dep id i.dependencies, no_dependents id items)

-- The source is archived and, where ids were distinct, no longer active; the target is active, and no
-- active item depends on the source.
pub record Merged {W : Type 0} (v : View W) (source_id target_id : String) (a b : W) : Type 0 where
  pub moved : Moved v source_id a b
  pub stays : has target_id (v.active b) ≡ true
  pub free : any (depends_on source_id) (v.active b) ≡ false

module _ {W : Type 0} (world : World W) (v : View W) (laws : WorldLaws world v)
    (to_value : StructuredDescription → Value)
    (from_value : Value → Option StructuredDescription) where
  pub found-has :
      (id : String) (items : List Item) (item : Item)
      → find (has_id id) items ≡ some item
      → has id items ≡ true
  found-has id [] item h = cc h
  found-has id (i ∷ items) item h = ground (arith, found-has id items item, h)

  left :
      (source : Item) (now : ℕ) (target_id : String) (xs : List Item) (j : String)
      → has j (
          map (strip_dep source.id) (
            modify_first
              (absorb to_value from_value now source)
              target_id
              (remove_first source.id xs)))
        ≡ has j (remove_first source.id xs)
  left source now target_id xs j =
      has-map source.id j
        (modify_first (absorb to_value from_value now source) target_id (remove_first source.id xs))
      ∙ has-modify_first (absorb to_value from_value now source) target_id
          (id-absorb to_value from_value now source) j (remove_first source.id xs)

  merge_body-Merged :
      (source_id target_id : String)
      → (source_id == target_id) ≡ false
      → (s : W) (a : Unit {0})
      → (merge_body world to_value from_value source_id target_id s).0 ≡ ok a
      → Merged v source_id target_id s
          (merge_body world to_value from_value source_id target_id s).1
  unfolding merge_body
  merge_body-Merged source_id target_id differ s =
      let Q : Result TgError (Unit {0}) × W → Type 0 =
        λ z. (a : Unit {0}) → z.0 ≡ ok a → Merged v source_id target_id s z.1 in
      started world v laws Q _ s (λ e b h a q. cc q)
        (λ m h.
          chosen world v laws Q _ (find (has_id source_id) (v.active m)) _ m (λ a q. cc q)
            (λ source found.
              chosen world v laws Q _ (find (has_id target_id) (v.active m)) _ m (λ a q. cc q)
                (λ target there.
                  kept_or_appended world v laws Q source _ m (λ e b k a q. cc q)
                    (λ n e r.
                      let named = found_id source_id (v.active m) source found in
                      let items = map (strip_dep source.id) (
                        modify_first (absorb to_value from_value (world.now m) source) target_id
                          (remove_first source.id (v.active m))) in
                      elim (laws.save_law items n) [
                        | inr (x, q, k) ↦ λ a p. cc (p, q)
                        | inl (q, f, t) ↦ λ a p. record {
                          moved = record {
                            archived =
                                rw (t, r)
                                  (ground (
                                    arith,
                                    any-append (has_id source_id) (v.archive m) (source ∷ []),
                                    named,
                                    eq_iff source.id source_id,
                                  ));
                            gone = λ d.
                                rw
                                  (
                                    f,
                                    left source (world.now m) target_id (v.active m) source_id,
                                    named,
                                  )
                                  (gone-remove_first source_id (v.active m)
                                    (subst (λ z. distinct z ≡ true) (sym h.0) d));
                          };
                          stays =
                              rw
                                (
                                  f,
                                  left source (world.now m) target_id (v.active m) target_id,
                                  named,
                                )
                                (ground (
                                  arith,
                                  has-remove_first source_id target_id (v.active m)
                                      (found-has target_id (v.active m) target there),
                                  differ,
                                ));
                          free = rw f (
                              subst (λ z. any (depends_on z) items ≡ false) named
                                (no_dependents source.id _));
                        }
                      ]))))

  -- A merge that succeeds is of two different items. It leaves the source in the archive and, where the
  -- ids of the active items were distinct, not among them; the target is active, and no active item
  -- depends on the source.
  pub handle_merge_item-Merged :
      (source_id target_id : String) (s : W)
      → (handle_merge_item world to_value from_value source_id target_id s).0 ≡ ok tt
      → (source_id ≢ target_id)
        × Merged v source_id target_id s
            (handle_merge_item world to_value from_value source_id target_id s).1
  unfolding handle_merge_item
  handle_merge_item-Merged source_id target_id s = elim (Bool-cases (source_id == target_id)) [
    | inl same ↦ rw same (λ q. cc q)
    | inr differ ↦ rw differ (λ q.
        let (m, h, d) =
          retried world v laws (Merged v source_id target_id)
            (merge_body world to_value from_value source_id target_id)
            (merge_body-Sound world v laws to_value from_value source_id target_id)
            (merge_body-Merged source_id target_id differ) s tt q in
        (
          λ e. ground (arith, differ, e, eq_iff source_id target_id),
          record {
            moved = record { archived = d.moved.archived; gone = λ k. d.moved.gone (h.unique k) };
            stays = d.stays;
            free = d.free;
          },
        ))
  ]
