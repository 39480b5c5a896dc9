-- ===== src/Coordinator/Sound.antt =====
-- What every store operation of src/coordinator.rs keeps, on every outcome.
use phase_golem.Prelude.{
  ℕ, String, ◌≡◌, refl, sym, ◌∙◌, ap, subst, true, ◌||◌, Option, none, some, List, [], ◌∷◌, ◌++◌,
  any-append, find, map, ◌==◌, string_eq, ok, Bool-cases, arith, inl, inr,
}
use mathlib.Core.List.{append_assoc, append-nil}
use phase_golem.Prelude.Actions.{
  Action, ◌>>=◌, ◌>>◌, done, or_fail, Follows, IsOrder, bind-at, Follows-seq,
}
use phase_golem.Types.{ItemStatus, status_eq, StructuredDescription}
use phase_golem.PgItem.{Value, Item}
use phase_golem.PgItem.Getters.{pg_status}
use phase_golem.PgError.{TgError}
use phase_golem.Scheduler.Items.{has_id}
use phase_golem.Coordinator.{World}
use phase_golem.Coordinator.Edits.{modify_first, remove_first, restore, absorb, strip_dep}
use phase_golem.Coordinator.Ids.{
  has, distinct, has-modify_first, distinct-modify_first, found_id, id-restore, id-absorb, has-map,
  distinct-map, has-remove_first, distinct-remove_first,
}
use phase_golem.Coordinator.Laws.{View, Same, WorldLaws}
use phase_golem.Coordinator.Store.{update_body, unblock_body, archive_body, merge_body}

-- No item is lost, the ids of the active items stay distinct, and the archive only grows.
pub record Sound {W : Type 0} (v : View W) (a b : W) : Type 0 where
  pub kept :
      (id : String)
      → (has id (v.active a) || has id (v.archive a)) ≡ true
      → (has id (v.active b) || has id (v.archive b)) ≡ true
  pub unique : distinct (v.active a) ≡ true → distinct (v.active b) ≡ true
  pub grown : (extra : List Item) × (v.archive b ≡ v.archive a ++ extra)

module _ {W : Type 0} (world : World W) (v : View W) (laws : WorldLaws world v) where
  pub same-Sound : (a b : W) → Same v a b → Sound v a b
  same-Sound a b h = record {
    kept = λ id k. rw (h.0, h.1) k;
    unique = λ d. rw h.0 d;
    grown = ([], h.1 ∙ sym (append-nil _));
  }

  pub order : IsOrder (Sound v)
  order = record {
    stays = λ s. same-Sound s s (refl, refl);
    joins = λ a b c f g. record {
      kept = λ id k. g.kept id (f.kept id k);
      unique = λ d. g.unique (f.unique d);
      grown = (
        f.grown.0 ++ g.grown.0,
        g.grown.1
            ∙ ap (λ z. z ++ g.grown.0) f.grown.1
            ∙ append_assoc (v.archive a) f.grown.0 g.grown.0,
      );
    };
  }

  pub lift : {E A : Type 0} (m : Action E W A) → Follows (Same v) m → Follows (Sound v) m
  lift m h = record { at = λ s. same-Sound s (m s).1 (h.at s) }

  -- A closure that goes on from the items that are active.
  pub loaded :
      {A : Type 0} (next : List Item → Action TgError W A)
      → ((s : W) → Sound v s (next (v.active s) s).1)
      → Follows (Sound v) (world.lock >> (world.load_active >>= next))
  loaded next h =
      Follows-seq order world.lock (world.load_active >>= next) (lift world.lock laws.lock_law)
        (record {
          at = λ s.
              bind-at order world.load_active next s
                (same-Sound s (world.load_active s).1 (laws.load_law.at s))
                (λ xs e.
                  subst (λ z. Sound v (world.load_active s).1 (next z (world.load_active s).1).1)
                    ((laws.load_law.at s).0 ∙ sym (laws.load_reads s xs e))
                    (h (world.load_active s).1));
        })

  pub saved :
      (xs : List Item) (s : W)
      → ((id : String) → has id (v.active s) ≡ true → (has id xs || has id (v.archive s)) ≡ true)
      → (distinct (v.active s) ≡ true → distinct xs ≡ true)
      → Sound v s (world.save_active xs s).1
  saved xs s k d = elim (laws.save_law xs s) [
    | inl (e, a, r) ↦ record {
      kept = λ id h. rw (a, r) (ground (arith, h, k id));
      unique = λ h. rw a (d h);
      grown = ([], r ∙ sym (append-nil _));
    }
    | inr (x, e, same) ↦ same-Sound s (world.save_active xs s).1 same
  ]

  appended : (item : Item) (s : W) → Sound v s (world.append_to_archive item s).1
  appended item s = elim (laws.append_law item s) [
    | inl (e, a, r) ↦ record {
      kept =
          λ id h. rw (a, r) (ground (arith, h, any-append (has_id id) (v.archive s) (item ∷ [])));
      unique = λ h. rw a h;
      grown = (item ∷ [], r);
    }
    | inr (x, e, same) ↦ same-Sound s (world.append_to_archive item s).1 same
  ]

  -- `ok_or_else` goes on only where the item is found, in the same state.
  pub located :
      {A : Type 0} (e : TgError) (o : Option Item) (next : Item → Action TgError W A) (s : W)
      → ((item : Item) → o ≡ some item → Sound v s (next item s).1)
      → Sound v s ((or_fail e o >>= next) s).1
  located e none next s h = order.stays s
  located e (some item) next s h = h item refl

  pub update_body-Sound :
      (id : String) (f : ℕ → Item → Item)
      → ((now : ℕ) (i : Item) → (f now i).id ≡ i.id)
      → Follows (Sound v) (update_body world id f)
  unfolding update_body
  update_body-Sound id f keeps = loaded _ (λ s.
      located (TgError.item_not_found id) (find (has_id id) (v.active s)) _ s (λ item e.
        saved (modify_first (f (world.now s)) id (v.active s)) s
          (λ j h.
            rw (has-modify_first (f (world.now s)) id (keeps (world.now s)) j (v.active s), h) refl)
          (λ d.
            rw (distinct-modify_first (f (world.now s)) id (keeps (world.now s)) (v.active s)) d)))

  pub unblock_body-Sound :
      (id : String) (context : Option String) → Follows (Sound v) (unblock_body world id context)
  unfolding unblock_body
  unblock_body-Sound id context = loaded _ (λ s.
      located (TgError.item_not_found id) (find (has_id id) (v.active s)) _ s (λ item e.
        elim (Bool-cases (pg_status item == ItemStatus.blocked)) [
          | inl b ↦ rw b (
              saved (modify_first (restore (world.now s) context) id (v.active s)) s
                (λ j h.
                  rw
                    (
                      has-modify_first (restore (world.now s) context) id
                          (id-restore (world.now s) context) j (v.active s),
                      h,
                    )
                    refl)
                (λ d.
                  rw
                    (distinct-modify_first (restore (world.now s) context) id
                      (id-restore (world.now s) context) (v.active s))
                    d))
          | inr b ↦ rw b (order.stays s)
        ]))

  appended_ok :
      (item : Item) (s : W)
      → (world.append_to_archive item s).0 ≡ ok tt
      → (v.active (world.append_to_archive item s).1 ≡ v.active s)
        × (v.archive (world.append_to_archive item s).1 ≡ v.archive s ++ item ∷ [])
  appended_ok item s h = elim (laws.append_law item s) [
    | inl (e, a, r) ↦ (a, r)
    | inr (x, e, same) ↦ cc (e, h)
  ]

  -- The item removed from the active ones is in the archive by then.
  moved :
      (item : Item) (id : String) (xs : List Item) (s : W)
      → (world.append_to_archive item s).0 ≡ ok tt
      → item.id ≡ id
      → ((j : String) → has j xs ≡ has j (remove_first id (v.active s)))
      → distinct xs ≡ distinct (remove_first id (v.active s))
      → Sound v
          (world.append_to_archive item s).1
          (world.save_active xs (world.append_to_archive item s).1).1
  moved item id xs s ok_append named hk dk =
      let (a, r) = appended_ok item s ok_append in
      saved xs (world.append_to_archive item s).1
        (λ j h.
          rw (r, hk j)
            (ground (
              arith,
              subst (λ z. has j z ≡ true) a h,
              named,
              has-remove_first id j (v.active s) (subst (λ z. has j z ≡ true) a h),
              any-append (has_id j) (v.archive s) (item ∷ []),
            )))
        (λ d. rw dk (distinct-remove_first id (v.active s) (subst (λ z. distinct z ≡ true) a d)))

  pub archive_body-Sound : (id : String) → Follows (Sound v) (archive_body world id)
  unfolding archive_body
  archive_body-Sound id = loaded _ (λ s.
      located (TgError.item_not_found id) (find (has_id id) (v.active s)) _ s (λ item e.
        bind-at order (world.append_to_archive item) _ s (appended item s) (λ _ a.
          bind-at order (world.save_active (remove_first id (v.active s))) (λ _. done item)
            (world.append_to_archive item s).1
            (moved item id (remove_first id (v.active s)) s a (found_id id (v.active s) item e)
              (λ j. refl) refl)
            (λ _ _. order.stays _))))

  module _ (to_value : StructuredDescription → Value)
      (from_value : Value → Option StructuredDescription) where
    pub merge_body-Sound :
        (source_id target_id : String)
        → Follows (Sound v) (merge_body world to_value from_value source_id target_id)
    unfolding merge_body
    merge_body-Sound source_id target_id = loaded _ (λ s.
        located _ (find (has_id source_id) (v.active s)) _ s (λ source e.
          located _ (find (has_id target_id) (v.active s)) _ s (λ target _.
            bind-at order (world.append_to_archive source) _ s (appended source s) (λ _ a.
              let absorbed = absorb to_value from_value (world.now s) source in
              let keeps = id-absorb to_value from_value (world.now s) source in
              let left = remove_first source.id (v.active s) in
              moved source source.id
                (map (strip_dep source.id) (modify_first absorbed target_id left)) s a refl
                (λ j.
                  has-map source.id j (modify_first absorbed target_id left)
                  ∙ has-modify_first absorbed target_id keeps j left)
                (distinct-map source.id (modify_first absorbed target_id left)
                  ∙ distinct-modify_first absorbed target_id keeps left)))))
