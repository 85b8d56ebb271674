-- ===== src/Shared.antt =====
-- internal/domain/shared/error.go: the application's error, and the other errors that the
-- modelled code returns.
use tejun.Prelude.{ℕ, String, Option, none, some, List, [], Bool, false}

pub record AppError : Type 0 where
  pub code : String
  pub message : String
  pub field_errors : List (String × String)
  pub retryable : Bool
  pub cause_id : String
  pub current_revision : Option ℕ

-- A Go `error`: a `*shared.Error`, sql.ErrNoRows, the violation of a UNIQUE, PRIMARY KEY or FOREIGN
-- KEY constraint, or any other with its text.
pub data Error : Type 0 where
  app : AppError → Error
  no_rows : Error
  constraint : Error
  plain : String → Error

-- `&shared.Error{Code: code, Message: message}`
abbrev pub app_error : String → String → Error
app_error code message = app (record {
  code = code;
  message = message;
  field_errors = [];
  retryable = false;
  cause_id = "";
  current_revision = none;
})

-- `&shared.Error{Code: "revision_conflict", Message: message, CurrentRevision: &revision}`
abbrev pub conflict_error : String → ℕ → Error
conflict_error message revision = app (record {
  code = "revision_conflict";
  message = message;
  field_errors = [];
  retryable = false;
  cause_id = "";
  current_revision = some revision;
})

-- notFound, of sql.ErrNoRows
abbrev pub not_found : Error
not_found = app_error "not_found" "対象がありません"
