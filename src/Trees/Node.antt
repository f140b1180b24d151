-- ===== src/Trees/Node.antt =====
-- src/luicode/messaging/trees/node.py, identity.py, snapshot.py (the values) and MessageScope of
-- messaging/models.py.
use luicode.Base.{
  string_eq, Bool, ◌&&◌, true, false, String, Option, none, some, List, ◌==◌, if◌then◌else◌, truthy,
}
use luicode.Base.Dict.{Dict}

pub record MessageScope : Type 0 where
  pub platform : String
  pub chat_id : String

pub record TreeIdentity : Type 0 where
  pub scope : MessageScope
  pub root_id : String

pub data MessageState : Type 0 where
  pending in_progress completed error : MessageState

pub data MessageReferenceKind : Type 0 where
  prompt status : MessageReferenceKind

pub record MessageNode : Type 0 where
  pub node_id : String
  pub scope : MessageScope
  pub prompt : String
  pub status_message_id : Option String
  pub state : MessageState
  pub parent_id : Option String
  pub parent_reference_id : Option String
  pub session_id : Option String
  pub children_ids : List String

-- `if session_id:` is false of None and of the empty text.
abbrev pub truthy_id : Option String → Bool
truthy_id none = false
truthy_id (some s) = truthy s

unfoldable pub update_state : MessageState → Option String → MessageNode → MessageNode
update_state state session_id node = record node {
  state = state;
  session_id = if truthy_id session_id then session_id else node.session_id;
}

unfoldable pub mark_error : MessageNode → MessageNode
unfolding update_state
mark_error = update_state error none

unfoldable pub clear_status : MessageNode → MessageNode
unfolding mark_error
clear_status node = mark_error (record node { status_message_id = none; session_id = none })

abbrev pub same_scope : MessageScope → MessageScope → Bool
same_scope a b = a.platform == b.platform && a.chat_id == b.chat_id

abbrev pub is_pending : MessageState → Bool
is_pending pending = true
is_pending _ = false

abbrev pub is_in_progress : MessageState → Bool
is_in_progress in_progress = true
is_in_progress _ = false

abbrev pub is_error : MessageState → Bool
is_error error = true
is_error _ = false

abbrev pub is_completed : MessageState → Bool
is_completed completed = true
is_completed _ = false

-- `node.state in (MessageState.PENDING, MessageState.IN_PROGRESS)`
abbrev pub is_runnable : MessageState → Bool
is_runnable pending = true
is_runnable in_progress = true
is_runnable _ = false

-- What `node_to_snapshot` keeps of a node.
pub record NodeSnapshot : Type 0 where
  pub node_id : String
  pub status_message_id : Option String
  pub state : MessageState
  pub parent_id : Option String
  pub parent_reference_id : Option String
  pub session_id : Option String

unfoldable pub node_to_snapshot : MessageNode → NodeSnapshot
node_to_snapshot node = record {
  node_id = node.node_id;
  status_message_id = node.status_message_id;
  state = node.state;
  parent_id = node.parent_id;
  parent_reference_id = node.parent_reference_id;
  session_id = node.session_id;
}

pub record TreeSnapshot : Type 0 where
  pub scope : MessageScope
  pub root_id : String
  pub nodes : Dict String NodeSnapshot
