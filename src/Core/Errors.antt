-- ===== src/Core/Errors.antt =====
-- packages/mdrack-core/src/mdrack_core/domain/errors.py, and the exceptions that the core raises
-- or catches.
use mdrack.Base.{Bool, Option, none, some, if◌then◌else◌}
use mdrack.Base.Results.{Result, ok, err}
use mdrack.Base.Text.{Str, has_content}

pub data ErrorCategory : Type 0 where
  validation branch_unavailable incompatible_vector_space adapter_timeout : ErrorCategory
  adapter_error catalog_error internal_error : ErrorCategory

pub data DegradationCategory : Type 0 where
  branch_unavailable incompatible_vector_space adapter_timeout adapter_error : DegradationCategory

-- An instance of `Exception`, by its class. The two subclasses of `CoreError` stand apart, as the
-- `except` clauses tell them apart; `other_error` is any class that no clause names.
pub data PyError : Type 0 where
  value_error type_error timeout_error key_error index_error assertion_error : PyError
  attribute_error overflow_error zero_division_error other_error : PyError
  core_error : ErrorCategory → PyError
  branch_execution_error : ErrorCategory → Str → PyError
  catalog_execution_error : ErrorCategory → PyError

-- `_ERROR_TO_DEGRADATION.get(category)`: its keys are what `BranchExecutionError` accepts.
unfoldable pub error_to_degradation : ErrorCategory → Option DegradationCategory
error_to_degradation ErrorCategory.branch_unavailable = some DegradationCategory.branch_unavailable
error_to_degradation ErrorCategory.incompatible_vector_space =
    some DegradationCategory.incompatible_vector_space
error_to_degradation ErrorCategory.adapter_timeout = some DegradationCategory.adapter_timeout
error_to_degradation ErrorCategory.adapter_error = some DegradationCategory.adapter_error
error_to_degradation _ = none

-- `_CATALOG_ERROR_TO_DEGRADATION.get(category)`
unfoldable pub catalog_error_to_degradation : ErrorCategory → Option DegradationCategory
catalog_error_to_degradation ErrorCategory.catalog_error = some DegradationCategory.adapter_error
catalog_error_to_degradation ErrorCategory.adapter_timeout =
    some DegradationCategory.adapter_timeout
catalog_error_to_degradation _ = none

-- `_ERROR_TO_DEGRADATION[category]`, and the same of the other table
abbrev pub index_table : Option DegradationCategory → Result PyError DegradationCategory
index_table none = err key_error
index_table (some d) = ok d

-- The set that `BranchExecutionError.__init__` tests.
unfoldable pub is_branch_category : ErrorCategory → Bool
is_branch_category ErrorCategory.branch_unavailable = Bool.true
is_branch_category ErrorCategory.incompatible_vector_space = Bool.true
is_branch_category ErrorCategory.adapter_timeout = Bool.true
is_branch_category ErrorCategory.adapter_error = Bool.true
is_branch_category _ = Bool.false

-- The set that `CatalogExecutionError.__init__` tests.
unfoldable pub is_catalog_category : ErrorCategory → Bool
is_catalog_category ErrorCategory.catalog_error = Bool.true
is_catalog_category ErrorCategory.adapter_timeout = Bool.true
is_catalog_category _ = Bool.false

-- `BranchExecutionError(category, branch_id=…)`: the error, or what its constructor raises.
unfoldable pub make_branch_error : ErrorCategory → Str → PyError
make_branch_error category branch_id =
    if is_branch_category category
    then if has_content branch_id then branch_execution_error category branch_id else value_error
    else value_error

-- `CatalogExecutionError(category)`
unfoldable pub make_catalog_error : ErrorCategory → PyError
make_catalog_error category =
    if is_catalog_category category then catalog_execution_error category else value_error
