-- ===== src/Coordinator/Ingested.antt =====
-- The ingestion of follow-ups (src/coordinator.rs) keeps the ids distinct, since new ids are new.
use phase_golem.Prelude.{
  String, ◌≡◌, refl, ◌∙◌, subst, true, false, List, [], ◌∷◌, ◌++◌, any, any-append, ◌==◌, string_eq,
  eq_iff, Result, ok, err, Result-cases, arith, inl, inr,
}
use phase_golem.Prelude.Actions.{done, Follows, bind-at}
use phase_golem.Types.{status_eq, StructuredDescription, FollowUp}
use phase_golem.PgItem.{Value, Item}
use phase_golem.PgError.{TgError}
use phase_golem.Scheduler.Items.{has_id}
use phase_golem.Coordinator.{World}
use phase_golem.Coordinator.Edits.{follow_up_item}
use phase_golem.Coordinator.Ids.{has, distinct, id-follow_up_item, distinct-snoc}
use phase_golem.Coordinator.Laws.{View, Same, WorldLaws}
use phase_golem.Coordinator.Store.{ingest_loop, ingest_body}
use phase_golem.Coordinator.Sound.{Sound, same-Sound, order, loaded, saved}

module _ {W : Type 0} (world : World W) (v : View W) (laws : WorldLaws world v) where
  -- How the loop over the follow-ups leaves the items that it got.
  abbrev Extended : List Item → Result TgError (List Item × List String) → Type 0
  Extended items (err e) = Unit
  Extended items (ok (xs, ids)) =
      ((id : String) → has id items ≡ true → has id xs ≡ true)
      × (distinct items ≡ true → distinct xs ≡ true)

  abbrev Covers : List String → List Item → Type 0
  Covers known items = (id : String) → has id items ≡ true → any (λ x. x == id) known ≡ true

  one_more_known :
      (known : List String) (items : List Item) (item : Item) (id : String)
      → item.id ≡ id
      → Covers known items
      → Covers (id ∷ known) (items ++ item ∷ [])
  one_more_known known items item id e c j h =
      ground
        (arith, any-append (has_id j) items (item ∷ []), h, c j, e, eq_iff item.id j, eq_iff id j)

  fresh :
      (known : List String) (items : List Item) (item : Item) (id : String)
      → item.id ≡ id
      → Covers known items
      → any (λ x. x == id) known ≡ false
      → has item.id items ≡ false
  fresh known items item id e c n = ground (arith, c item.id, e, n)

  joined : (a b c : W) → Same v a b → Same v b c → Same v a c
  joined a b c f g = (g.0 ∙ f.0, g.1 ∙ f.1)

  one_more_item :
      (items : List Item) (item : Item) (r : Result TgError (List Item × List String))
      → has item.id items ≡ false
      → Extended (items ++ item ∷ []) r
      → Extended items r
  one_more_item items item (err e) n h = tt
  one_more_item items item (ok (xs, ids)) n h = (
    λ id k. h.0 id (ground (arith, any-append (has_id id) items (item ∷ []), k)),
    λ d. h.1 (distinct-snoc items item d n),
  )

  module _ (to_value : StructuredDescription → Value) (origin prefix : String) where
    ingest_loop-Extended :
        (known : List String) (items : List Item) (new_ids : List String) (fus : List FollowUp)
        (s : W)
        → Covers known items
        → Same v s (ingest_loop world to_value origin prefix known items new_ids fus s).1
          × Extended items (ingest_loop world to_value origin prefix known items new_ids fus s).0
    unfolding ingest_loop
    ingest_loop-Extended known items new_ids [] s c = ((refl, refl), (λ id h. h, λ d. d))
    ingest_loop-Extended known items new_ids (fu ∷ fus) s c =
        let made = world.generate_id_with_prefix known prefix s in
        elim (Result-cases made.0) [
          | inl e ↦ rw e.1 ((laws.generate_law known prefix).at s, tt)
          | inr (id, e) ↦
              let item = follow_up_item to_value (world.now made.1) origin id fu in
              let rest =
                ingest_loop-Extended (id ∷ known) (items ++ item ∷ []) (new_ids ++ id ∷ []) fus
                  made.1
                  (one_more_known known items item id
                    (id-follow_up_item to_value (world.now made.1) origin id fu) c) in
              rw e (
                joined s made.1 _ ((laws.generate_law known prefix).at s) rest.0,
                one_more_item items item _
                    (fresh known items item id
                      (id-follow_up_item to_value (world.now made.1) origin id fu) c
                      (laws.generate_fresh s known prefix id e))
                    rest.1,
              )
        ]

    pub ingest_body-Sound :
        (fus : List FollowUp) → Follows (Sound v) (ingest_body world to_value origin prefix fus)
    unfolding ingest_body
    ingest_body-Sound fus = loaded world v laws _ (λ s.
        bind-at (order world v laws) world.all_known_ids _ s
          (same-Sound world v laws s (world.all_known_ids s).1 (laws.known_law.at s))
          (λ known e.
            let s1 = (world.all_known_ids s).1 in
            let loop = ingest_loop world to_value origin prefix known (v.active s) [] fus in
            let grown =
              ingest_loop-Extended known (v.active s) [] fus s1
                (λ id h. laws.known_all s known id e h) in
            bind-at (order world v laws) loop _ s1 (same-Sound world v laws s1 (loop s1).1 grown.0)
              (λ res f.
                let s2 = (loop s1).1 in
                let same = grown.0.0 ∙ (laws.known_law.at s).0 in
                let more = subst (Extended (v.active s)) f grown.1 in
                bind-at (order world v laws) (world.save_active res.0) (λ _. done res.1) s2
                  (saved world v laws res.0 s2
                    (λ id h. ground (arith, more.0 id (subst (λ z. has id z ≡ true) same h)))
                    (λ d. more.1 (subst (λ z. distinct z ≡ true) same d)))
                  (λ _ _. (order world v laws).stays _))))
