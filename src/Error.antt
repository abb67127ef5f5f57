-- ===== src/Error.antt =====
-- src/error.rs: the error values of the program, and the `Result` of fallible code. A message is
-- kept as the template of its `format!` with the values that are put into it.
use vibe_caravan.Prelude.{ℕ, String, Bool, true, false, Text, List, [], ◌∷◌, ◌++◌, FilePath}

-- `std::io::Error`: the kinds that the program tests for, an error of another kind with its
-- `raw_os_error`, one with a text, and `io::Error::new(e.kind(), _)` with a text that shows two
-- errors, of the kind of the second.
pub data IoError : Type 0 where
  not_found storage_full quota_exceeded : IoError
  raw_os : ℕ → IoError
  other : String → IoError
  of_kind : IoError → IoError → IoError

-- `err.kind() == ErrorKind::NotFound`.
abbrev pub is_not_found : IoError → Bool
is_not_found IoError.not_found = true
is_not_found (IoError.of_kind shown e) = is_not_found e
is_not_found _ = false

pub data Arg : Type 0 where
  lit : String → Arg
  cause : IoError → Arg
  word : Text → Arg
  words : List Text → Arg
  num : ℕ → Arg
  path : FilePath → Arg
  paths : List FilePath → Arg
  -- a number as `format_bytes` shows it
  bytes : ℕ → Arg

pub record Message : Type 0 where
  pub template : String
  pub args : List Arg

abbrev pub message : String → List Arg → Message
message t vs = record { template = t; args = vs }

abbrev nested : Message → List Arg
nested m = Arg.lit m.template ∷ m.args

-- The lists hold paths where the source holds their renderings.
pub record VerificationFailure : Type 0 where
  pub recommended_action : String
  pub missing_files : List FilePath
  pub mismatched_files : List FilePath
  pub unreadable_files : List FilePath

pub data CaravanError : Type 0 where
  cli : Message → CaravanError
  invalid_arguments : Message → CaravanError
  not_implemented : Message → CaravanError
  resume : String → Message → CaravanError
  io : Message → CaravanError
  io_context : Message → IoError → CaravanError
  policy_blocked : Message → CaravanError
  verification_failed : VerificationFailure → CaravanError
  state_corrupt : Message → CaravanError
  state_read : FilePath → IoError → CaravanError
  state_parse : FilePath → Message → CaravanError
  graceful_shutdown : CaravanError

pub data Result {ℓ} (T : Type ℓ) : Type ℓ where
  err : CaravanError → Result T
  ok : T → Result T

module _ {ℓ κ} {T : Type ℓ} {U : Type κ} where
  -- The operator `?` on a result, with the rest of the function.
  infixl 5 ◌>>=◌
  abbrev pub ◌>>=◌ : Result T → (T → Result U) → Result U
  err failure >>= rest = err failure
  ok value >>= rest = rest value

infixl 5 ◌>>◌
abbrev pub ◌>>◌ {κ} : {U : Type κ} → Result (Unit {0}) → Result U → Result U
first >> rest = first >>= λ nothing. rest

-- `if refused { return Err(e); }`.
abbrev pub fail_if : Bool → CaravanError → Result (Unit {0})
fail_if true e = err e
fail_if false e = ok tt

-- `to_string()`: a message within a message is its template followed by its values.
unfoldable pub display : CaravanError → Message
display (CaravanError.cli m) = message "cli error: {}" (nested m)
display (CaravanError.invalid_arguments m) = message "invalid arguments: {}" (nested m)
display (CaravanError.not_implemented m) = message "not implemented: {}" (nested m)
display (CaravanError.resume c m) = message "resume ({}): {}" (Arg.lit c ∷ nested m)
display (CaravanError.io m) = message "io error: {}" (nested m)
display (CaravanError.io_context m e) = message "{}: {}" (nested m ++ (Arg.cause e ∷ []))
display (CaravanError.policy_blocked m) = message "policy blocked: {}" (nested m)
display (CaravanError.verification_failed f) = message "verification failed" []
display (CaravanError.state_corrupt m) = message "state corruption: {}" (nested m)
display (CaravanError.state_read p e) =
    message "failed to read state file {}: {}" (Arg.path p ∷ Arg.cause e ∷ [])
display (CaravanError.state_parse p m) =
    message "failed to parse state file {}: {}" (Arg.path p ∷ nested m)
display CaravanError.graceful_shutdown = message "graceful shutdown requested" []
