-- ===== src/PgItem/Fields.antt =====
-- What the typed getters of src/pg_item.rs read after the setters have written.
use phase_golem.Prelude.{ℕ, String, ◌≡◌, Bool, Option, none, some, arith, if◌then◌else◌}
use phase_golem.Types.{
  ItemStatus, BlockType, SizeLevel, DimensionLevel, PhasePool, StructuredDescription,
  UpdatedAssessments, description_is_empty,
}
use phase_golem.PgItem.{Value, Item}
use phase_golem.PgItem.Getters.{
  pg_status, pg_blocked_from_status, parse_blocked_from_status, phase, phase_pool, size, complexity,
  risk, impact, requires_human_review, pipeline_type, origin, blocked_type, unblock_context,
  last_phase_commit, structured_description,
}
use phase_golem.PgItem.Lifecycle.{pg_status-set_pg_status}
use phase_golem.PgItem.Setters.{
  set_pg_status, set_blocked_from_status, set_phase, set_phase_pool, set_size, set_complexity,
  set_risk, set_impact, set_pipeline_type, set_last_phase_commit, set_blocked_type,
  set_unblock_context, set_requires_human_review, set_origin, set_structured_description,
  apply_assessments,
}

-- The statuses that an item can go back to; the getter of the status blocked from knows no other.
abbrev pub resumable : Option ItemStatus → Option ItemStatus
resumable (some ItemStatus.done) = none
resumable (some ItemStatus.blocked) = none
resumable f = f

-- The getter of each optional field, after its setter.
module _ (now : ℕ) (item : Item) where
  phase-set_phase : (p : Option String) → phase (set_phase now item p) ≡ p
  unfolding phase set_phase
  phase-set_phase p = ground arith

  phase_pool-set_phase_pool : (p : Option PhasePool) → phase_pool (set_phase_pool now item p) ≡ p
  unfolding phase_pool set_phase_pool
  phase_pool-set_phase_pool p = ground arith

  size-set_size : (s : Option SizeLevel) → size (set_size now item s) ≡ s
  unfolding size set_size
  size-set_size s = ground arith

  levels-set :
      (l : Option DimensionLevel)
      → (complexity (set_complexity now item l) ≡ l)
        × (risk (set_risk now item l) ≡ l)
        × (impact (set_impact now item l) ≡ l)
  unfolding complexity set_complexity risk set_risk impact set_impact
  levels-set l = ground arith

  blocked_type-set_blocked_type :
      (t : Option BlockType) → blocked_type (set_blocked_type now item t) ≡ t
  unfolding blocked_type set_blocked_type
  blocked_type-set_blocked_type t = ground arith

  texts-set :
      (s : Option String)
      → (pipeline_type (set_pipeline_type now item s) ≡ s)
        × (last_phase_commit (set_last_phase_commit now item s) ≡ s)
        × (unblock_context (set_unblock_context now item s) ≡ s)
        × (origin (set_origin now item s) ≡ s)
  unfolding pipeline_type set_pipeline_type last_phase_commit set_last_phase_commit unblock_context
      set_unblock_context origin set_origin
  texts-set s = ground arith

  requires_human_review-set :
      (b : Bool) → requires_human_review (set_requires_human_review now item b) ≡ b
  unfolding requires_human_review set_requires_human_review
  requires_human_review-set b = ground arith

  blocked_from-set :
      (f : Option ItemStatus)
      → pg_blocked_from_status (set_blocked_from_status now item f) ≡ resumable f
  unfolding pg_blocked_from_status set_blocked_from_status parse_blocked_from_status
  blocked_from-set f = ground arith

  abbrev pub Reads :
      ItemStatus
      → Option ItemStatus
      → Option String
      → Option PhasePool
      → Option SizeLevel
      → Option DimensionLevel
      → Option BlockType
      → Bool
      → Type 0
  Reads c f s p z l t b =
      (pg_status (set_pg_status now item c) ≡ c)
      × (pg_blocked_from_status (set_blocked_from_status now item f) ≡ resumable f)
      × (phase (set_phase now item s) ≡ s)
      × (phase_pool (set_phase_pool now item p) ≡ p)
      × (size (set_size now item z) ≡ z)
      × ((complexity (set_complexity now item l) ≡ l)
          × (risk (set_risk now item l) ≡ l)
          × (impact (set_impact now item l) ≡ l))
      × (blocked_type (set_blocked_type now item t) ≡ t)
      × ((pipeline_type (set_pipeline_type now item s) ≡ s)
          × (last_phase_commit (set_last_phase_commit now item s) ≡ s)
          × (unblock_context (set_unblock_context now item s) ≡ s)
          × (origin (set_origin now item s) ≡ s))
      × (requires_human_review (set_requires_human_review now item b) ≡ b)

-- What is written is read back, whether a value or its absence: by the phase, its pool, the size, the
-- complexity, the risk, the impact, the kind of block, the pipeline type, the last commit, the unblock
-- context, the origin and the review flag; by the status, any of the six; and by the status blocked
-- from, but for done and blocked, which read back as absent.
pub getters-setters :
    (now : ℕ) (item : Item) (c : ItemStatus) (f : Option ItemStatus) (s : Option String)
    (p : Option PhasePool) (z : Option SizeLevel) (l : Option DimensionLevel) (t : Option BlockType)
    (b : Bool)
    → Reads now item c f s p z l t b
getters-setters now item c f s p z l t b = (
  pg_status-set_pg_status now item c,
  blocked_from-set now item f,
  phase-set_phase now item s,
  phase_pool-set_phase_pool now item p,
  size-set_size now item z,
  levels-set now item l,
  blocked_type-set_blocked_type now item t,
  texts-set now item s,
  requires_human_review-set now item b,
)

abbrev pub or_else {ℓ} : {A : Type ℓ} → Option A → Option A → Option A
or_else (some a) _ = some a
or_else none b = b

-- Updating the assessments overwrites exactly the levels that are given, leaves the status, the phase
-- and its pool, the pipeline type and the review flag as they were, and records the time.
pub apply_assessments_lem :
    (now : ℕ) (item : Item) (a : UpdatedAssessments)
    → let after = apply_assessments now item a in
      (size after ≡ or_else a.size (size item))
      × (complexity after ≡ or_else a.complexity (complexity item))
      × (risk after ≡ or_else a.risk (risk item))
      × (impact after ≡ or_else a.impact (impact item))
      × (pg_status after ≡ pg_status item)
      × (phase after ≡ phase item)
      × (phase_pool after ≡ phase_pool item)
      × (pipeline_type after ≡ pipeline_type item)
      × (requires_human_review after ≡ requires_human_review item)
      × (after.updated_at ≡ now)
unfolding apply_assessments size complexity risk impact pg_status phase phase_pool pipeline_type
    requires_human_review
apply_assessments_lem now item a = ground arith

-- A description that is not empty reads back as it was written, if JSON decoding inverts encoding;
-- an empty one reads back as absent.
pub structured_description-set :
    (now : ℕ) (to_value : StructuredDescription → Value)
    (from_value : Value → Option StructuredDescription) (item : Item) (d : StructuredDescription)
    → ((x : StructuredDescription) → from_value (to_value x) ≡ some x)
    → structured_description from_value (set_structured_description now to_value item (some d))
      ≡ (if description_is_empty d then none else some d)
unfolding structured_description set_structured_description
structured_description-set now to_value from_value item d inverse = rw (inverse d)
