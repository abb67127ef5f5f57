-- ===== src/Prompt.antt =====
-- src/prompt.rs: the approval of a deletion by the operator. What is printed is not modelled; the
-- answers are the lines that the environment reads.
use vibe_caravan.Prelude.{
  Bool, true, ◌||◌, List, [], ◌∷◌, Text, text, text_eq, ◌==◌, trim, to_ascii_lowercase, is_empty,
  if◌then◌else◌,
}
use vibe_caravan.Error.{Result, ok, err, CaravanError, Arg, message}

pub data BatchSizeMismatchChoice : Type 0 where
  use_state_size enter_new_size start_fresh : BatchSizeMismatchChoice

-- `parse_batch_size_mismatch_choice`.
unfoldable pub parse_batch_size_mismatch_choice : Text → Result BatchSizeMismatchChoice
parse_batch_size_mismatch_choice choice =
    if choice == text "1"
    then ok BatchSizeMismatchChoice.use_state_size
    else if choice == text "2"
    then ok BatchSizeMismatchChoice.enter_new_size
    else if choice == text "3"
    then ok BatchSizeMismatchChoice.start_fresh
    else err (
        CaravanError.invalid_arguments
          (message "Invalid choice '{}'. Please enter 1, 2, or 3." (Arg.word choice ∷ [])))

-- Of the Unicode letters only `Y`, `E` and `S` become `y`, `e` and `s` in lower case, so ASCII is
-- enough.
unfoldable pub parse_yes_no : Text → Bool
unfolding trim to_ascii_lowercase
parse_yes_no answer = let a = to_ascii_lowercase (trim answer) in a == text "y" || a == text "yes"

-- A question to the operator: the line that is read, or the error of the terminal.
module _ {W : Type 0} (read_line : W → Result Text × W) where
  abbrev pub parse_answer : Result Text × W → Result Bool × W
  parse_answer (ok answer, w) = (ok (parse_yes_no answer), w)
  parse_answer (err e, w) = (err e, w)

  -- `InteractivePrompt::confirm_deletion`, and `confirm_batch_deletion` for one batch or for all.
  unfoldable pub confirm_deletion : W → Result Bool × W
  confirm_deletion w = parse_answer (read_line w)

  unfoldable pub confirm_batch_deletion : List Text → W → Result Bool × W
  unfolding confirm_deletion
  confirm_batch_deletion batch_ids w =
      if is_empty batch_ids then (ok true, w) else confirm_deletion w

  abbrev pub blocked : CaravanError
  blocked = CaravanError.invalid_arguments (
      message "destructive operations are blocked in non-interactive mode without explicit approval"
        [])

  -- `request_approval_for_batches` with the interactive backend.
  unfoldable pub request_approval_for_batches : Bool → Bool → List Text → W → Result Bool × W
  unfolding confirm_batch_deletion
  request_approval_for_batches interactive explicit_approval batch_ids w =
      if explicit_approval
      then (ok true, w)
      else if is_empty batch_ids
      then (ok true, w)
      else if interactive
      then confirm_batch_deletion batch_ids w
      else (err blocked, w)
