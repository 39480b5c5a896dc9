-- ===== src/Samples/Coordinating.antt =====
-- The coordinator on a small world: a list of active items, an archive, and a lock that another process
-- still holds for some attempts.
use phase_golem.Prelude.{
  ℕ, zero, suc, ◌+◌, String, ◌≡◌, ◌≢◌, refl, sym, subst, true, false, Option, none, List, [], ◌∷◌,
  ◌++◌, any, map, ◌==◌, string_eq, ok, err, Bool-cases, arith, inl, inr, if◌then◌else◌,
}
use phase_golem.Prelude.Actions.{Action, done, fail, skip, modify, reads}
use phase_golem.Types.{transition_status, done as done_status, StructuredDescription, FollowUp}
use phase_golem.PgItem.{Value, Item}
use phase_golem.PgItem.Update.{apply_update}
use phase_golem.PgError.{TgError, is_retryable, from_tg}
use phase_golem.Coordinator.{World, CoordinatorState, attempts, with_store_retry}
use phase_golem.Coordinator.Ids.{has}
use phase_golem.Coordinator.Laws.{View, Same, WorldLaws}
use phase_golem.Coordinator.Store.{
  handle_update_item, handle_ingest_follow_ups, handle_merge_item, merge_body,
}
use phase_golem.Coordinator.Commands.{
  CoordinatorCommand, complete_phase, batch_commit, archive_item, merge_item, is_fatal_result,
  run_coordinator,
}
use phase_golem.Coordinator.Steps.{Whole}
use phase_golem.Coordinator.Outcomes.{Changed, handle_update_item-Whole}
use phase_golem.Coordinator.Arrivals.{Added, handle_ingest_follow_ups-Whole}
use phase_golem.Coordinator.Merges.{Merged, handle_merge_item-Merged}
use phase_golem.Coordinator.Served.{Safe, run_coordinator-Safe}
use phase_golem.Coordinator.Replies.{owed_after, run_coordinator-owed, run_coordinator-append}
use phase_golem.Coordinator.Counted.{Tried, retryable, with_store_retry-Tried}
use phase_golem.Samples.{reviewing, building, completing, to_null}

pub record Disk : Type 0 where
  pub active : List Item
  pub archive : List Item
  pub held : ℕ
  pub locks : ℕ

abbrev pub on_disk : View Disk
on_disk = record { active = λ s. s.active; archive = λ s. s.archive }

abbrev take_lock : Action TgError Disk (Unit {0})
take_lock s = elim s.held [
  | zero ↦ (ok tt, record s { locks = s.locks + 1 })
  | suc n ↦ (err (TgError.lock_timeout 5), record s { held = n; locks = s.locks + 1 })
]

abbrev ids : List Item → List String
ids items = map (λ i. i.id) items

abbrev new_id : List String → String → Action TgError Disk String
new_id known p = if any (λ x. x == p) known then fail (TgError.id_collision_exhausted 1) else done p

abbrev pub world : World Disk
world = record {
  now = λ s. 7;
  sleep = λ s. s;
  spawn_blocking = skip;
  lock = take_lock;
  load_active = reads (λ s. s.active);
  all_known_ids = reads (λ s. ids s.active);
  append_to_archive = λ item. modify (λ s. record s { archive = s.archive ++ item ∷ [] });
  save_active = λ items. modify (λ s. record s { active = items });
  generate_id_with_prefix = new_id;
  write_archive_entry = λ item. skip;
  write_entry = λ id title phase outcome summary. skip;
  in_root = λ path. path;
  get_status = done [];
  stage_paths = λ paths. skip;
  stage_self = skip;
  commit = λ message. skip;
  get_head_sha = done "abc";
  is_ancestor = λ sha. done true;
}

known :
    (id : String) (items : List Item) → has id items ≡ true → any (λ x. x == id) (ids items) ≡ true
known id [] h = h
known id (i ∷ items) h = ground (arith, h, known id items)

take_lock-Same : (s : Disk) → Same on_disk s (take_lock s).1
take_lock-Same s = elim s.held as (λ n. Same on_disk s (take_lock (record s { held = n })).1) [
  | zero ↦ (refl, refl)
  | suc n ↦ (refl, refl)
]

new_id-Same : (ids : List String) (p : String) (s : Disk) → Same on_disk s (new_id ids p s).1
new_id-Same ids p s = elim (Bool-cases (any (λ x. x == p) ids)) [
  | inl e ↦ rw e (refl, refl)
  | inr e ↦ rw e (refl, refl)
]

new_id-fresh :
    (s : Disk) (ids : List String) (p id : String)
    → (new_id ids p s).0 ≡ ok id
    → any (λ x. x == id) ids ≡ false
new_id-fresh s ids p id = elim (Bool-cases (any (λ x. x == p) ids)) [
  | inl e ↦ rw e (λ h. cc h)
  | inr e ↦
      rw e (λ h. let same : p ≡ id = cc h in subst (λ z. any (λ x. x == z) ids ≡ false) same e)
]

pub world-WorldLaws : WorldLaws world on_disk
world-WorldLaws = record {
  sleep_law = λ s. (refl, refl);
  spawn_law = record { at = λ s. (refl, refl) };
  lock_law = record { at = take_lock-Same };
  load_law = record { at = λ s. (refl, refl) };
  load_reads = λ s xs h. let same : s.active ≡ xs = cc h in sym same;
  known_law = record { at = λ s. (refl, refl) };
  known_all = λ s xs id h k.
      let same : ids s.active ≡ xs = cc h in
      subst (λ z. any (λ x. x == id) z ≡ true) same (known id s.active k);
  generate_law = λ xs p. record { at = new_id-Same xs p };
  generate_fresh = new_id-fresh;
  append_law = λ item s. inl (refl, refl, refl);
  save_law = λ items s. inl (refl, refl, refl);
  entry_law = λ item. record { at = λ s. (refl, refl) };
  worklog_law = λ id title phase outcome summary. record { at = λ s. (refl, refl) };
  status_law = record { at = λ s. (refl, refl) };
  stage_law = λ paths. record { at = λ s. (refl, refl) };
  stage_self_law = record { at = λ s. (refl, refl) };
  commit_law = λ message. record { at = λ s. (refl, refl) };
  head_law = record { at = λ s. (refl, refl) };
  ancestor_law = λ sha. record { at = λ s. (refl, refl) };
}

abbrev pub from_nothing : Value → Option StructuredDescription
from_nothing v = none

-- The lock is free at the second attempt.
abbrev pub disk : Disk
disk = record { active = building ∷ reviewing ∷ []; archive = []; held = 1; locks = 0 }

abbrev pub serving : CoordinatorState Disk
serving = record { world = disk; prefix = "WRK"; pending_batch_phases = [] }

abbrev requests : List CoordinatorCommand
requests =
    complete_phase "WRK-1" (completing "WRK-1" "review") false ∷ merge_item "WRK-2" "WRK-1" ∷ []

abbrev later : List CoordinatorCommand
later = batch_commit ∷ archive_item "WRK-1" ∷ []

run_coordinator-Safe_example :
    Safe on_disk serving (run_coordinator world to_null from_nothing requests serving).1
run_coordinator-Safe_example =
    run_coordinator-Safe world on_disk world-WorldLaws to_null from_nothing requests serving

run_coordinator-owed_example :
    (run_coordinator world to_null from_nothing requests serving).1.pending_batch_phases
    ≡ owed_after requests (run_coordinator world to_null from_nothing requests serving).0 []
run_coordinator-owed_example = run_coordinator-owed world to_null from_nothing requests serving

run_coordinator-append_example :
    let first = run_coordinator world to_null from_nothing requests serving in
    let second = run_coordinator world to_null from_nothing later first.1 in
    run_coordinator world to_null from_nothing (requests ++ later) serving ≡ (
      if any (is_fatal_result world to_null from_nothing) first.0
      then first
      else (first.0 ++ second.0, second.1))
run_coordinator-append_example =
    run_coordinator-append world to_null from_nothing requests later serving

handle_update_item-Whole_example :
    Whole on_disk
      (λ a _ b.
        Changed on_disk "WRK-1"
          (λ now i. apply_update now to_null i (transition_status done_status))
          a
          b)
      disk
      (handle_update_item world to_null "WRK-1" (transition_status done_status) disk)
handle_update_item-Whole_example =
    handle_update_item-Whole world on_disk world-WorldLaws to_null "WRK-1"
      (transition_status done_status) disk

abbrev idea : FollowUp
idea = record { title = "Cache it"; context = none; suggested_size = none; suggested_risk = none }

handle_ingest_follow_ups-Whole_example :
    Whole on_disk
      (Added on_disk to_null "WRK-1/build" (idea ∷ []))
      disk
      (handle_ingest_follow_ups world to_null "WRK-1/build" "WRK-9" (idea ∷ []) disk)
handle_ingest_follow_ups-Whole_example =
    handle_ingest_follow_ups-Whole world on_disk world-WorldLaws to_null "WRK-1/build" "WRK-9"
      (idea ∷ []) disk

united : (handle_merge_item world to_null from_nothing "WRK-2" "WRK-1" disk).0 ≡ ok tt
unfolding handle_merge_item merge_body is_retryable from_tg with_store_retry attempts
united = refl

handle_merge_item-Merged_example :
    (◌≢◌ {A = String} "WRK-2" "WRK-1")
    × Merged on_disk "WRK-2" "WRK-1" disk
        (handle_merge_item world to_null from_nothing "WRK-2" "WRK-1" disk).1
handle_merge_item-Merged_example =
    handle_merge_item-Merged world on_disk world-WorldLaws to_null from_nothing "WRK-2" "WRK-1" disk
      united

abbrev locks : Disk → ℕ
locks s = s.locks

-- An operation that only takes the lock.
take_lock-counts : (s : Disk) → locks (take_lock s).1 ≡ locks s + 1
take_lock-counts s =
    elim s.held as (λ n. locks (take_lock (record s { held = n })).1 ≡ locks s + 1) [
      | zero ↦ refl
      | suc n ↦ refl
    ]

with_store_retry-Tried_example :
    let out = with_store_retry world take_lock disk in
    Tried 3 (locks disk) (retryable out.0) (locks out.1)
with_store_retry-Tried_example =
    with_store_retry-Tried world locks (λ s. refl) (λ s. refl) take_lock take_lock-counts disk
