-- ===== src/Application/Error.antt =====
-- crates/casegraph-application/src/error.rs
use casegraph.Text.{Text}
use casegraph.Domain.Error.{DomainError, domain_error_display}

pub data ErrorKind : Type 0 where
  invalid_input not_found conflict unsupported too_large storage internal : ErrorKind

pub record AppError : Type 0 where
  pub kind : ErrorKind
  pub message : Text

-- `AppError::new`.
abbrev pub app_error : ErrorKind → Text → AppError
app_error kind message = record { kind = kind; message = message }

-- `From<DomainError> for AppError`.
unfoldable pub from_domain : DomainError → AppError
unfolding domain_error_display
from_domain e = app_error invalid_input (domain_error_display e)
