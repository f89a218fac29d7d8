-- ===== src/Core/Publication.antt =====
-- packages/mdrack-core/src/mdrack_core/domain/publication.py
use mdrack.Base.{Bool, true, false, not, Option, none, some, if◌then◌else◌, ◌==◌}
use mdrack.Base.Results.{Result, ok, err, ◌>>◌, require}
use mdrack.Base.Text.{Str, str_eq}
use mdrack.Base.Floats.{Floats}
use mdrack.Core.Errors.{PyError, value_error, type_error}
use mdrack.Core.Common.{require_non_empty}
use mdrack.Core.Records.{Locator, PreparedResourceBatch}

pub data PublicationStatus : Type 0 where
  never_created published live_without_projections deleted : PublicationStatus

module _ (F : Floats) where
  pub record PublicationState : Type 0 where
    pub resource_id : Str
    pub status : PublicationStatus
    pub lifecycle_id : Option Str
    pub state_token : Option Str
    pub source_namespace : Option Str
    pub source_locator : Option (Locator F)

  abbrev is_none : {A : Type 0} → Option A → Bool
  is_none none = true
  is_none (some a) = false

  -- `require_non_empty(value, …)`, where `None` is no text
  unfoldable pub require_identity : Option Str → Result PyError (Unit {0})
  unfolding require_non_empty
  require_identity none = err value_error
  require_identity (some s) = require_non_empty s

  -- The second part of `PublicationState.__post_init__` by status
  unfoldable pub check_binding : PublicationState → PublicationStatus → Result PyError (Unit {0})
  unfolding require_identity
  check_binding s PublicationStatus.never_created = do
    require (is_none s.lifecycle_id) value_error
    require (is_none s.state_token) value_error
    require (is_none s.source_namespace) value_error
    require (is_none s.source_locator) value_error
  check_binding s _ = do
    require_identity s.lifecycle_id
    require_identity s.state_token
    require_identity s.source_namespace
    require (not (is_none s.source_locator)) type_error

  -- `PublicationState.__post_init__`
  unfoldable pub make_publication_state : PublicationState → Result PyError PublicationState
  unfolding require_non_empty check_binding
  make_publication_state s = do require_non_empty s.resource_id; check_binding s s.status; ok s

  -- `PublicationState.live`
  unfoldable pub live : PublicationState → Bool
  live s = elim s.status [
    | PublicationStatus.never_created ↦ false
    | PublicationStatus.published ↦ true
    | PublicationStatus.live_without_projections ↦ true
    | PublicationStatus.deleted ↦ false
  ]

  pub record ExpectedPublication : Type 0 where
    pub state : PublicationState
    pub create : Bool

  -- `ExpectedPublication.__post_init__`
  unfoldable pub make_expected_publication :
      ExpectedPublication → Result PyError ExpectedPublication
  unfolding live
  make_expected_publication e = do
    require (if e.create then not (live e.state) else live e.state) value_error
    ok e

  pub record ResourceSnapshot : Type 0 where
    pub state : PublicationState
    pub batch : Option (PreparedResourceBatch F)

  -- `ResourceSnapshot.__post_init__`
  unfoldable pub make_resource_snapshot : ResourceSnapshot → Result PyError ResourceSnapshot
  make_resource_snapshot s = elim s.batch [
    | none ↦ (do
      require (elim s.state.status [ PublicationStatus.published ↦ false | _ ↦ true ]) value_error
      ok s)
    | some b ↦ (do
      require (elim s.state.status [ PublicationStatus.published ↦ true | _ ↦ false ]) value_error
      require (b.resource.resource_id == s.state.resource_id) value_error
      ok s)
  ]

  pub record PublicationResult : Type 0 where
    pub applied : Bool
    pub state : PublicationState
