-- ===== src/Sessions/Models.antt =====
-- models.py of the coding sessions: the records of a session, its runs, its transcript and its prompts.
-- Times are left out, since nothing decides by them, and so is the harness, which is always the same.
use luicode.Base.{string_eq, ℕ, nat_eq, Bool, true, false, String, Option, ◌==◌}
use luicode.Base.Json.{Fields}

pub data RunStatus : Type 0 where
  preparing running stopping completed interrupted failed : RunStatus

-- `status in ACTIVE_RUN_STATUSES`
abbrev pub is_active : RunStatus → Bool
is_active preparing = true
is_active running = true
is_active stopping = true
is_active completed = false
is_active interrupted = false
is_active failed = false

pub data CodeMode : Type 0 where
  config ask auto_review full_access : CodeMode

pub data SessionStatus : Type 0 where
  ready deleting delete_uncertain : SessionStatus

pub data PromptStatus : Type 0 where
  pending answering resolved expired : PromptStatus

-- `status in {"pending", "answering"}`
abbrev pub is_waiting : PromptStatus → Bool
is_waiting pending = true
is_waiting answering = true
is_waiting resolved = false
is_waiting expired = false

pub record CodeSession : Type 0 where
  pub id : String
  pub cwd : String
  pub model : String
  pub reasoning_effort : Option String
  pub mode : CodeMode
  pub title : String
  pub auto_title : Bool
  pub native_thread_id : Option String
  pub native_permission_defaults : Option Fields
  pub native_may_have_input : Bool
  pub context_used_tokens : Option ℕ
  pub revision : ℕ
  pub status : SessionStatus
  pub error : Option String

pub record CodeRun : Type 0 where
  pub id : String
  pub session_id : String
  pub text : String
  pub model : String
  pub reasoning_effort : Option String
  pub mode : CodeMode
  pub ordinal : ℕ
  pub status : RunStatus
  pub submission_started : Bool
  pub native_turn_id : Option String
  pub stop_requested : Bool
  pub error : Option String
  pub error_details : Fields

pub record CodeItem : Type 0 where
  pub id : String
  pub session_id : String
  pub sequence : ℕ
  pub run_id : String
  pub native_turn_id : Option String
  pub native_item_id : Option String
  pub kind : String
  pub title : String
  pub text : String
  pub detail : String
  pub complete : Bool
  pub raw : Fields

-- The id of a request is a text or a number.
pub data RequestId : Type 0 where
  named : String → RequestId
  numbered : ℕ → RequestId

abbrev pub same_request : RequestId → RequestId → Bool
same_request (named a) (named b) = a == b
same_request (numbered a) (numbered b) = a == b
same_request (named a) (numbered b) = false
same_request (numbered a) (named b) = false

pub record CodePrompt : Type 0 where
  pub id : String
  pub session_id : String
  pub generation : String
  pub request_id : RequestId
  pub native_turn_id : Option String
  pub native_item_id : Option String
  pub kind : String
  pub form : Fields
  pub raw : Fields
  pub status : PromptStatus
  pub response_id : Option String
  pub error : Option String
