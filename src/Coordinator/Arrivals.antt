-- ===== src/Coordinator/Arrivals.antt =====
-- What the ingestion of follow-ups (src/coordinator.rs) adds to the store.
use phase_golem.Prelude.{
  ℕ, String, ◌≡◌, refl, sym, ◌∙◌, ap, subst, List, [], ◌∷◌, ◌++◌, Result, ok, err, Result-cases,
  inl, inr,
}
use mathlib.Core.List.{append_assoc, append-nil}
use phase_golem.Prelude.Actions.{◌>>=◌, ◌>>◌, done}
use phase_golem.Types.{StructuredDescription, FollowUp}
use phase_golem.PgItem.{Value, Item}
use phase_golem.PgError.{TgError}
use phase_golem.Coordinator.{World}
use phase_golem.Coordinator.Edits.{follow_up_item}
use phase_golem.Coordinator.Laws.{View, Same, WorldLaws}
use phase_golem.Coordinator.Steps.{
  Whole, untouched_order, started, kept_or_saved, with_store_retry-Whole,
}
use phase_golem.Coordinator.Store.{ingest_loop, ingest_body, handle_ingest_follow_ups}

module _ (to_value : StructuredDescription → Value) (origin : String) where
  -- One item for each follow-up, under the new ids, in the order of the follow-ups.
  abbrev pub Made : List FollowUp → List String → List Item → Type 0
  Made [] [] [] = Unit
  Made (fu ∷ fus) (id ∷ ids) (i ∷ items) =
      ((now : ℕ) × (i ≡ follow_up_item to_value now origin id fu)) × Made fus ids items
  Made _ _ _ = ⊥

-- The items made for the follow-ups stand after those that were there; the archive is as it was.
pub record Added {W : Type 0} (v : View W) (to_value : StructuredDescription → Value)
    (origin : String) (fus : List FollowUp) (a : W) (ids : List String) (b : W) : Type 0 where
  pub items : List Item
  pub made : Made to_value origin fus ids items
  pub appended : v.active b ≡ v.active a ++ items
  pub archived : v.archive b ≡ v.archive a

module _ {W : Type 0} (world : World W) (v : View W) (laws : WorldLaws world v)
    (to_value : StructuredDescription → Value) (origin prefix : String) where
  -- The loop gives the items it got with one more for each follow-up, and the ids it got with theirs.
  record Grown (fus : List FollowUp) (items : List Item) (ids : List String)
      (res : List Item × List String) : Type 0 where
    new_items : List Item
    new_names : List String
    made : Made to_value origin fus new_names new_items
    grown_items : res.0 ≡ items ++ new_items
    grown_ids : res.1 ≡ ids ++ new_names

  GrownOr :
      List FollowUp → List Item → List String → Result TgError (List Item × List String) → Type 0
  GrownOr fus items ids (ok res) = Grown fus items ids res
  GrownOr fus items ids (err e) = Unit

  one_more :
      (fu : FollowUp) (fus : List FollowUp) (items : List Item) (ids : List String) (id : String)
      (now : ℕ) (r : Result TgError (List Item × List String))
      → GrownOr fus (items ++ follow_up_item to_value now origin id fu ∷ []) (ids ++ id ∷ []) r
      → GrownOr (fu ∷ fus) items ids r
  unfolding GrownOr
  one_more fu fus items ids id now (err e) h = tt
  one_more fu fus items ids id now (ok res) h = record {
    new_items = follow_up_item to_value now origin id fu ∷ h.new_items;
    new_names = id ∷ h.new_names;
    made = ((now, refl), h.made);
    grown_items =
        h.grown_items
        ∙ append_assoc items (follow_up_item to_value now origin id fu ∷ []) h.new_items;
    grown_ids = h.grown_ids ∙ append_assoc ids (id ∷ []) h.new_names;
  }

  ingest_loop-Grown :
      (known : List String) (items : List Item) (ids : List String) (fus : List FollowUp) (s : W)
      → Same v s (ingest_loop world to_value origin prefix known items ids fus s).1
        × GrownOr fus items ids (ingest_loop world to_value origin prefix known items ids fus s).0
  unfolding ingest_loop GrownOr
  ingest_loop-Grown known items ids [] s = (
    (refl, refl),
    record {
      new_items = [];
      new_names = [];
      made = tt;
      grown_items = sym (append-nil items);
      grown_ids = sym (append-nil ids);
    },
  )
  ingest_loop-Grown known items ids (fu ∷ fus) s =
      let made = world.generate_id_with_prefix known prefix s in
      elim (Result-cases made.0) [
        | inl (e, q) ↦ rw q ((laws.generate_law known prefix).at s, tt)
        | inr (id, q) ↦
            let now = world.now made.1 in
            let rest =
              ingest_loop-Grown (id ∷ known)
                (items ++ follow_up_item to_value now origin id fu ∷ []) (ids ++ id ∷ []) fus
                made.1 in
            rw q (
              (untouched_order v).joins s made.1 _ ((laws.generate_law known prefix).at s) rest.0,
              one_more fu fus items ids id now _ rest.1,
            )
      ]

  since :
      (fus : List FollowUp) (s m : W) (ids : List String) (b : W)
      → Same v s m
      → Added v to_value origin fus m ids b
      → Added v to_value origin fus s ids b
  since fus s m ids b h c = record {
    items = c.items;
    made = c.made;
    appended = c.appended ∙ ap (λ z. z ++ c.items) h.0;
    archived = c.archived ∙ h.1;
  }

  save_rest :
      (fus : List FollowUp) (m : W) (xs : List Item) (ids : List String) (n : W)
      → Same v m n
      → Grown fus (v.active m) [] (xs, ids)
      → Whole v (Added v to_value origin fus) m ((world.save_active xs >> done {E = TgError} ids) n)
  save_rest fus m xs ids n h g =
      kept_or_saved world v laws (Whole v (Added v to_value origin fus) m) xs ids n
        (λ e b k. inr (e, refl, (untouched_order v).joins m n b h k))
        (λ b e k. inl (
          ids,
          refl,
          record {
            items = g.new_items;
            made = subst (λ z. Made to_value origin fus z g.new_items) (sym g.grown_ids) g.made;
            appended = e ∙ g.grown_items;
            archived = k ∙ h.1;
          },
        ))

  after_known :
      (fus : List FollowUp) (m n : W) (known : List String)
      → Same v m n
      → Whole v (Added v to_value origin fus) m (
          (ingest_loop world to_value origin prefix known (v.active m) [] fus >>= λ g.
          world.save_active g.0 >> done {E = TgError} g.1)
            n)
  unfolding GrownOr
  after_known fus m n known h =
      let (same, grown) = ingest_loop-Grown known (v.active m) [] fus n in
      let run = ingest_loop world to_value origin prefix known (v.active m) [] fus n in
      let all = (untouched_order v).joins m n run.1 h same in
      elim (Result-cases run.0) [
        | inl (e, q) ↦ rw q (inr (e, refl, all))
        | inr (res, q) ↦
            rw q
              (save_rest fus m res.0 res.1 run.1 all (subst (GrownOr fus (v.active m) []) q grown))
      ]

  ingest_body-Whole :
      (fus : List FollowUp) (s : W)
      → Whole v (Added v to_value origin fus) s (ingest_body world to_value origin prefix fus s)
  unfolding ingest_body
  ingest_body-Whole fus s =
      let Q = Whole {E = TgError} v (Added v to_value origin fus) s in
      started world v laws Q _ s (λ e b h. inr (e, refl, h))
        (λ m h.
          let n = (world.all_known_ids m).1 in
          let all = (untouched_order v).joins s m n h (laws.known_law.at m) in
          elim (Result-cases (world.all_known_ids m).0) [
            | inl (e, q) ↦ rw q (inr (e, refl, all))
            | inr (known, q) ↦ rw q (elim (after_known fus m n known (laws.known_law.at m)) [
              | inl (ids, r, c) ↦ inl (ids, r, since fus s m ids _ h c)
              | inr (e, r, k) ↦ inr (e, r, (untouched_order v).joins s m _ h k)
            ])
          ])

  -- Follow-ups are ingested all or none: on success the active items are followed by one new item for
  -- each follow-up, in their order and under the ids that are returned; on failure the store is as it
  -- was, however often it was tried.
  pub handle_ingest_follow_ups-Whole :
      (fus : List FollowUp) (s : W)
      → Whole v
          (Added v to_value origin fus)
          s
          (handle_ingest_follow_ups world to_value origin prefix fus s)
  unfolding handle_ingest_follow_ups
  handle_ingest_follow_ups-Whole [] s =
      inl
        ([], refl, record { items = []; made = tt; appended = sym (append-nil _); archived = refl })
  handle_ingest_follow_ups-Whole (fu ∷ fus) s =
      with_store_retry-Whole world v laws (Added v to_value origin (fu ∷ fus))
        (ingest_body world to_value origin prefix (fu ∷ fus)) (ingest_body-Whole (fu ∷ fus))
        (since (fu ∷ fus)) s
