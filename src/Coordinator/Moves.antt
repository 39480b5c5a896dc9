-- ===== src/Coordinator/Moves.antt =====
-- Where an item is after its archival by src/coordinator.rs succeeded.
use phase_golem.Prelude.{
  String, ◌≡◌, refl, sym, ap, subst, true, false, List, [], ◌∷◌, any-append, find, string_eq,
  eq_iff, Result, ok, Result-cases, arith, inl, inr,
}
use phase_golem.Prelude.Actions.{Action, recast, resume, Follows}
use phase_golem.PgItem.{Item}
use phase_golem.PgError.{TgError}
use phase_golem.Scheduler.Items.{has_id}
use phase_golem.Coordinator.{World, with_store_retry}
use phase_golem.Coordinator.Edits.{remove_first}
use phase_golem.Coordinator.Ids.{has, distinct, found_id}
use phase_golem.Coordinator.Laws.{View, WorldLaws}
use phase_golem.Coordinator.Sound.{Sound, order, lift, same-Sound, archive_body-Sound}
use phase_golem.Coordinator.Steps.{started, chosen, kept_or_saved, kept_or_appended}
use phase_golem.Coordinator.Attempts.{with_store_retry-Landed}
use phase_golem.Coordinator.Store.{archive_body, worklog_error, handle_archive_item}

-- The item is in the archive and, where ids were distinct, no longer active.
pub record Moved {W : Type 0} (v : View W) (id : String) (a b : W) : Type 0 where
  pub archived : has id (v.archive b) ≡ true
  pub gone : distinct (v.active a) ≡ true → has id (v.active b) ≡ false

pub gone-remove_first :
    (id : String) (items : List Item)
    → distinct items ≡ true
    → has id (remove_first id items) ≡ false
unfolding remove_first
gone-remove_first id [] d = refl
gone-remove_first id (i ∷ items) d = ground (arith, eq_iff i.id id, d, gone-remove_first id items)

module _ {W : Type 0} (world : World W) (v : View W) (laws : WorldLaws world v) where
  -- An `ok` of the retry is that of one attempt, before which no item was lost.
  pub retried :
      {A : Type 0} (Did : W → W → Type 0) (op : Action TgError W A)
      → Follows (Sound v) op
      → ((s : W) (a : A) → (op s).0 ≡ ok a → Did s (op s).1)
      → (s : W) (a : A) → (with_store_retry world op s).0 ≡ ok a
      → (m : W) × Sound v s m × Did m (with_store_retry world op s).1
  retried Did op sound did s a q =
      elim (with_store_retry-Landed world (order world v laws)
        (λ m. same-Sound world v laws m (world.sleep m) (laws.sleep_law m))
        (lift world v laws world.spawn_blocking laws.spawn_law) op (λ m e _. sound.at m) s) [
          | inl (x, m, _, h, p) ↦ (m, h, subst (λ z. Did m z.1) p (did m x (ap (λ z. z.0) p)))
          | inr (e, p, _) ↦ cc (p, q)
        ]

  archive_body-Moved :
      (id : String) (s : W) (a : Item)
      → (archive_body world id s).0 ≡ ok a
      → Moved v id s (archive_body world id s).1
  unfolding archive_body
  archive_body-Moved id s =
      let Q : Result TgError Item × W → Type 0 = λ z. (a : Item) → z.0 ≡ ok a → Moved v id s z.1 in
      started world v laws Q _ s (λ e b h a q. cc q)
        (λ m h.
          chosen world v laws Q _ (find (has_id id) (v.active m)) _ m (λ a q. cc q)
            (λ item found.
              kept_or_appended world v laws Q item _ m (λ e b k a q. cc q)
                (λ n e r.
                  kept_or_saved world v laws Q (remove_first id (v.active m)) item n
                    (λ x b k a q. cc q)
                    (λ b f t a q. record {
                      archived =
                          rw (t, r)
                            (ground (
                              arith,
                              any-append (has_id id) (v.archive m) (item ∷ []),
                              found_id id (v.active m) item found,
                              eq_iff item.id id,
                            ));
                      gone = λ d. rw f (
                          gone-remove_first id (v.active m)
                            (subst (λ z. distinct z ≡ true) (sym h.0) d));
                    }))))

  -- An archival that succeeds leaves the item in the archive and, where the ids of the active items
  -- were distinct, not among them.
  pub handle_archive_item-Moved :
      (id : String) (s : W)
      → (handle_archive_item world id s).0 ≡ ok tt
      → Moved v id s (handle_archive_item world id s).1
  unfolding handle_archive_item
  handle_archive_item-Moved id s q =
      elim (Result-cases (with_store_retry world (archive_body world id) s).0) [
        | inl (e, p) ↦ cc (
            subst
              (λ z.
                (resume z (λ item. recast (worklog_error world) (world.write_archive_entry item))
                  (with_store_retry world (archive_body world id) s).1).0
                ≡ ok tt)
              p q)
        | inr (item, p) ↦ rw p (
            let (m, h, moved) =
              retried (Moved v id) (archive_body world id) (archive_body-Sound world v laws id)
                (archive_body-Moved id) s item p in
            let same =
              (laws.entry_law item).at (with_store_retry world (archive_body world id) s).1 in
            record {
              archived = rw same.1 moved.archived;
              gone = λ d. rw same.0 (moved.gone (h.unique d));
            })
      ]
