-- ===== src/Tasks/Types.antt =====
-- What a task is: the types of sdk/mcp/tasks.go and sdk/mcp/tasks_input.go, and what they use of
-- other packages.
use vaultrun.Base.{
  Text, codes, is_empty, starts_with, text_eq, ℕ, zero, suc, ◌^◌, Bool, true, false, ◌&&◌, ◌||◌,
  Option, none, some, List, [], ◌∷◌, if◌then◌else◌,
}

pub data TaskStatus : Type 0 where
  working : TaskStatus
  input_required : TaskStatus
  completed : TaskStatus
  failed : TaskStatus
  cancelled : TaskStatus

pub record TaskInputRequest : Type 0 where
  pub method : Text
  pub params : Text

pub record TaskInputResponse : Type 0 where
  pub action : Text
  pub content : Text
  pub error : Text

-- `taskRecord`, without its `cancel`, which is the store's cancel function for its ID. Progress is
-- counted in units of 2^-1074, of which every float64 that is not negative is a multiple; maps are
-- lists of their entries.
pub record TaskRecord : Type 0 where
  pub id : Text
  pub status : TaskStatus
  pub tool : Text
  pub owner : Text
  pub created_at : ℕ
  pub updated_at : ℕ
  pub finished_at : Option ℕ
  pub result : Text
  pub error : Text
  pub progress : ℕ
  pub message : Text
  pub poll_interval : ℕ
  pub input_requests : List (Text × TaskInputRequest)
  pub input_responses : List (Text × TaskInputResponse)
  pub used_input_keys : List Text

-- the float64 1
unfoldable pub one : ℕ
one = 2 ^ 1074

abbrev pub is_final : TaskStatus → Bool
is_final working = false
is_final input_required = false
is_final completed = true
is_final failed = true
is_final cancelled = true

-- `terminal`
abbrev pub terminal : TaskRecord → Bool
terminal t = is_final t.status

abbrev pub is_input_required : TaskStatus → Bool
is_input_required input_required = true
is_input_required _ = false

-- the member "confirm" of the arguments of a tool
pub data ConfirmFlag : Type 0 where
  flag_bool : Bool → ConfirmFlag
  flag_text : Text → ConfirmFlag
  flag_other : ConfirmFlag

pub data TaskError : Type 0 where
  unknown_task : Text → TaskError
  invalid_task_id : TaskError
  inflight_full : TaskError
  message_too_long : TaskError
  input_too_long : TaskError
  already_finished : Text → TaskError
  requests_required : TaskError
  too_many_requests : TaskError
  invalid_request_key : TaskError
  request_too_large : Text → TaskError
  too_many_responses : TaskError
  invalid_response_key : TaskError
  response_too_large : Text → TaskError

-- Code of other packages: uuid.Parse, json.Unmarshal into a map and into a record with `approved`
-- (none where it fails), the removal of members followed by json.Marshal, json.Marshal of the note
-- on a truncated result, the runes of a string, and the text of an error.
pub record Outside : Type 0 where
  pub parses_uuid : Text → Bool
  pub confirm_member : Text → Option ConfirmFlag
  pub approved_member : Text → Option (Option Bool)
  pub without_flags : Text → Text
  pub truncated_note : (size : ℕ) → (preview : Text) → Text
  pub rune_count : Text → ℕ
  pub first_runes : ℕ → Text → Text
  pub elicitation : Text → Text
  pub error_text : TaskError → Text

abbrev pub past : ℕ → Text → Text
past zero s = s
past (suc n) [] = []
past (suc n) (c ∷ s) = past n s

-- `validTaskID`
unfoldable pub valid_task_id : Outside → Text → Bool
valid_task_id o id = starts_with (codes "task_") id && o.parses_uuid (past 5 id)

pub data Answer {ℓ} (A : Type ℓ) : Type ℓ where
  fails : TaskError → Answer A
  gives : A → Answer A

-- `authorizeTaskAccess`: whether it lets the caller through; its error is the one of an unknown ID
unfoldable pub may_access : (owner actor : Text) → Bool
may_access owner actor = is_empty owner || is_empty actor || text_eq owner actor

abbrev pub has_entry {ℓ} : {A : Type ℓ} → Text → List (Text × A) → Bool
has_entry k [] = false
has_entry k ((j, a) ∷ more) = text_eq j k || has_entry k more

abbrev pub entry {ℓ} : {A : Type ℓ} → Text → List (Text × A) → Option A
entry k [] = none
entry k ((j, a) ∷ more) = if text_eq j k then some a else entry k more

abbrev pub without {ℓ} : {A : Type ℓ} → Text → List (Text × A) → List (Text × A)
without k [] = []
without k ((j, a) ∷ more) = let rest = without k more in if text_eq j k then rest else (j, a) ∷ rest

abbrev pub contains_key : Text → List Text → Bool
contains_key k [] = false
contains_key k (j ∷ more) = text_eq j k || contains_key k more
