-- ===== src/Types/Transitions.antt =====
-- The graph of `ItemStatus::is_valid_transition` (src/types.rs).
use phase_golem.Prelude.{◌≡◌, refl, ◌≢◌, ◌↔◌, true, false, arith}
use phase_golem.Types.{ItemStatus, new, scoping, ready, in_progress, done, is_valid_transition}

-- The documented rules: block, unblock, and the forward progression.
infix 40 ◌⟶◌
pub data ◌⟶◌ : ItemStatus → ItemStatus → Type 0 where
  block : {s : ItemStatus} → s ≢ done → s ≢ ItemStatus.blocked → s ⟶ ItemStatus.blocked
  unblock : {s : ItemStatus} → s ≢ done → s ≢ ItemStatus.blocked → ItemStatus.blocked ⟶ s
  scope : new ⟶ scoping
  prepare : scoping ⟶ ready
  start : ready ⟶ in_progress
  finish : in_progress ⟶ done

⟶-valid : {s t : ItemStatus} → s ⟶ t → is_valid_transition s t ≡ true
unfolding is_valid_transition
⟶-valid {s} (block d b) = ground arith
⟶-valid {t} (unblock d b) = ground arith
⟶-valid scope = refl
⟶-valid prepare = refl
⟶-valid start = refl
⟶-valid finish = refl

ruleset rules = (block, unblock, scope, prepare, start, finish)

valid-⟶ : (s t : ItemStatus) → is_valid_transition s t ≡ true → s ⟶ t
unfolding is_valid_transition
valid-⟶ s t h = grind (arith, rules)

-- `is_valid_transition` decides exactly the documented transition rules: block from any status that
-- is neither done nor blocked, unblock to any such status, and new, scoping, ready, in progress,
-- done in this order.
pub is_valid_transition_iff : (s t : ItemStatus) → (is_valid_transition s t ≡ true) ↔ (s ⟶ t)
is_valid_transition_iff s t = (valid-⟶ s t, ⟶-valid)

-- The statuses that are reached by steps that `is_valid_transition` allows.
infix 40 ◌⇝*◌
pub data ◌⇝*◌ : ItemStatus → ItemStatus → Type 0 where
  stay : {s : ItemStatus} → s ⇝* s
  step : {s t u : ItemStatus} → is_valid_transition s t ≡ true → t ⇝* u → s ⇝* u

⇝*-done : (s : ItemStatus) → s ⇝* done
unfolding is_valid_transition
⇝*-done done = stay
⇝*-done in_progress = step {t = done} refl stay
⇝*-done ready = step {t = in_progress} refl (step {t = done} refl stay)
⇝*-done scoping = step {t = ready} refl (step {t = in_progress} refl (step {t = done} refl stay))
⇝*-done ItemStatus.blocked = step {t = in_progress} refl (step {t = done} refl stay)
⇝*-done new =
    step {t = scoping} refl
      (step {t = ready} refl (step {t = in_progress} refl (step {t = done} refl stay)))

none_from_done : (s t : ItemStatus) → is_valid_transition s t ≡ true → s ≢ done
unfolding is_valid_transition
none_from_done s t v e = ground arith

none_allowed : (t : ItemStatus) → is_valid_transition done t ≡ false
unfolding is_valid_transition
none_allowed t = ground arith

done_stays : {s t : ItemStatus} → s ⇝* t → s ≡ done → t ≡ done
done_stays stay e = e
done_stays (step v r) e = absurd (none_from_done _ _ v e)

-- Done can be reached from every status by steps that `is_valid_transition` allows; it allows none
-- from done, and so nothing but done is reached from there.
pub done_reachable_and_terminal :
    (s t : ItemStatus) → done ⇝* t → (s ⇝* done) × (is_valid_transition done s ≡ false) × (t ≡ done)
done_reachable_and_terminal s t r = (⇝*-done s, none_allowed s, done_stays r refl)
