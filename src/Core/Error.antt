-- ===== src/Core/Error.antt =====
-- include/roe/core.hpp: error categories and the structured error.
use roe.Base.{ℕ, Bool, true, false}
use roe.Base.Text.{Text}

pub data ErrorCode : Type 0 where
  ok usage file_io malformed_input unsupported_format not_found disassembly : ErrorCode
  resolution formatting internal : ErrorCode

pub record Error : Type 0 where
  pub code : ErrorCode
  pub message : Text
  pub offset : ℕ
  pub has_offset : Bool

-- `Error{code, message}`: the default members stand for the offset.
abbrev pub make_error : ErrorCode → Text → Error
make_error c m = record { code = c; message = m; offset = 0; has_offset = false }

-- `make_error(code, message, offset, true)`.
abbrev pub make_error_at : ErrorCode → Text → ℕ → Error
make_error_at c m o = record { code = c; message = m; offset = o; has_offset = true }
