-- ===== src/Model/Errors.antt =====
-- src/core/errors: one constructor for each error class with the data that it carries, the code
-- and the status of each, and what src/http/middleware/error.middleware.ts answers.
-- The message texts are left out.
use incident_api.Base.{ℕ, Option}
use incident_api.Model.Enums.{Stage, Role}
use mathlib.Core.List.{List}

-- `ErrorCode`.
pub data ErrorCode : Type 0 where
  validation_failed unauthenticated token_expired insufficient_role : ErrorCode
  insufficient_clearance not_assigned_investigator not_found : ErrorCode
  invalid_stage_transition closure_requirements_missing : ErrorCode
  investigator_clearance_too_low stale_version already_acknowledged : ErrorCode
  cursor_sort_mismatch self_modification_forbidden last_admin email_already_exists : ErrorCode
  rate_limited severity_unchanged invalid_assignment_target : ErrorCode
  no_investigator_assigned incident_closed image_or_reason_required : ErrorCode
  invalid_image_file image_upload_failed internal : ErrorCode

-- Why a stage move is refused, where the code says so (`meta.reason`).
pub data TransitionReason : Type 0 where
  closure_pending_review only_while_pending : TransitionReason

-- What a missing row was looked for as, `NotFoundError(resource, id)`.
pub data Resource : Type 0 where
  incident_resource investigator_resource user_resource notification_resource : Resource

pub data AppError : Type 0 where
  insufficient_clearance_error : (incident_id : ℕ) → AppError
  not_assigned_investigator_error : (incident_id : ℕ) → AppError
  invalid_stage_transition_error :
      (source target : Stage) (reason : Option TransitionReason) → AppError
  closure_requirements_missing_error : AppError
  investigator_clearance_too_low_error : (required actual : ℕ) → AppError
  stale_version_error : (expected : ℕ) → AppError
  already_acknowledged_error : AppError
  cursor_sort_mismatch_error : AppError
  self_modification_forbidden_error : AppError
  last_admin_error : AppError
  severity_unchanged_error : AppError
  invalid_assignment_target_error : AppError
  no_investigator_assigned_error : AppError
  incident_closed_error : AppError
  notes_closed_error : (stage : Stage) → AppError
  image_or_reason_required_error : AppError
  invalid_image_file_error : AppError
  image_upload_failed_error : AppError
  validation_failed_error : AppError
  unauthenticated_error : AppError
  token_expired_error : AppError
  insufficient_role_error : (required : List Role) → AppError
  not_found_error : Resource → (id : ℕ) → AppError
  rate_limited_error : (retry_after_seconds : ℕ) → AppError
  email_already_exists_error : AppError
  internal_error : AppError

abbrev pub error_code : AppError → ErrorCode
error_code (insufficient_clearance_error _) = insufficient_clearance
error_code (not_assigned_investigator_error _) = not_assigned_investigator
error_code (invalid_stage_transition_error _ _ _) = invalid_stage_transition
error_code closure_requirements_missing_error = closure_requirements_missing
error_code (investigator_clearance_too_low_error _ _) = investigator_clearance_too_low
error_code (stale_version_error _) = stale_version
error_code already_acknowledged_error = already_acknowledged
error_code cursor_sort_mismatch_error = cursor_sort_mismatch
error_code self_modification_forbidden_error = self_modification_forbidden
error_code last_admin_error = last_admin
error_code severity_unchanged_error = severity_unchanged
error_code invalid_assignment_target_error = invalid_assignment_target
error_code no_investigator_assigned_error = no_investigator_assigned
error_code incident_closed_error = incident_closed
error_code (notes_closed_error _) = invalid_stage_transition
error_code image_or_reason_required_error = image_or_reason_required
error_code invalid_image_file_error = invalid_image_file
error_code image_upload_failed_error = image_upload_failed
error_code validation_failed_error = validation_failed
error_code unauthenticated_error = unauthenticated
error_code token_expired_error = token_expired
error_code (insufficient_role_error _) = insufficient_role
error_code (not_found_error _ _) = not_found
error_code (rate_limited_error _) = rate_limited
error_code email_already_exists_error = email_already_exists
error_code internal_error = internal

abbrev pub error_status : AppError → ℕ
error_status (insufficient_clearance_error _) = 403
error_status (not_assigned_investigator_error _) = 403
error_status cursor_sort_mismatch_error = 422
error_status image_or_reason_required_error = 422
error_status invalid_image_file_error = 422
error_status image_upload_failed_error = 502
error_status validation_failed_error = 422
error_status unauthenticated_error = 401
error_status token_expired_error = 401
error_status (insufficient_role_error _) = 403
error_status (not_found_error _ _) = 404
error_status (rate_limited_error _) = 429
error_status internal_error = 500
error_status _ = 409

-- The named constraints of prisma/migrations that a write can violate.
pub data Constraint : Type 0 where
  closed_requires_rca high_severity_clock clearance_range unique_key : Constraint

-- What a handler may throw: an error of the program, or a refusal by the database (as Prisma
-- reports it: `missing_record` is P2025, `invalid_query` is a `PrismaClientValidationError`), or a
-- plain `Error`.
pub data Thrown : Type 0 where
  app : AppError → Thrown
  violated : Constraint → Thrown
  missing_record invalid_query plain_error : Thrown

-- The status and code that `errorMiddleware` answers with.
pub record Answer : Type 0 where
  pub status : ℕ
  pub code : ErrorCode

unfoldable pub error_middleware : Thrown → Answer
error_middleware (app e) = record { status = error_status e; code = error_code e }
error_middleware missing_record = record { status = 409; code = stale_version }
error_middleware invalid_query = record { status = 500; code = internal }
error_middleware plain_error = record { status = 500; code = internal }
error_middleware (violated _) = record { status = 500; code = internal }
