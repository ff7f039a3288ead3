-- ===== src/Domain/Error.antt =====
-- crates/casegraph-domain/src/error.rs
use casegraph.Prelude.{◌++◌}
use casegraph.Text.{Text, lit}

pub record DomainError : Type 0 where
  pub field : Text
  pub message : Text

-- `DomainError::new`.
abbrev pub domain_error : Text → Text → DomainError
domain_error field message = record { field = field; message = message }

-- `Display for DomainError`.
unfoldable pub domain_error_display : DomainError → Text
domain_error_display e = lit "invalid " ++ (e.field ++ (lit ": " ++ e.message))
