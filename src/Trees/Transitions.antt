-- ===== src/Trees/Transitions.antt =====
-- src/luicode/messaging/trees/transitions.py: the values that cross the boundary of a tree.
use luicode.Base.{ℕ, Bool, String, Option, List, is_some}
use luicode.Trees.Node.{
  MessageScope, TreeIdentity, MessageReferenceKind, MessageState, TreeSnapshot,
}

pub data AdmissionRejection : Type 0 where
  duplicate parent_removed : AdmissionRejection

pub record NodeUiTarget : Type 0 where
  pub scope : MessageScope
  pub node_id : String
  pub status_message_id : String

pub record NodeClaim : Type 0 where
  pub identity : TreeIdentity
  pub claim_id : String
  pub node : NodeUiTarget
  pub prompt : String
  pub parent_session_id : Option String

pub record QueueEntry : Type 0 where
  pub node : NodeUiTarget
  pub position : ℕ

pub record QueueDecision : Type 0 where
  pub claim : Option NodeClaim
  pub position : Option ℕ
  pub snapshot : Option TreeSnapshot
  pub rejection : Option AdmissionRejection

abbrev pub accepted : QueueDecision → Bool
accepted d = is_some d.snapshot

pub record CompletionResult : Type 0 where
  pub next_claim : Option NodeClaim
  pub queue : List QueueEntry

pub record TreeCancellation : Type 0 where
  pub nodes : List NodeUiTarget
  pub active_claim : Option NodeClaim
  pub queue_update : Option (List QueueEntry)

pub record MessageSubtreeRemoval : Type 0 where
  pub cancellation : TreeCancellation
  pub removed_message_ids : List String
  pub removed_entire_tree : Bool

pub record ReplyTarget : Type 0 where
  pub node_id : String
  pub reference_id : String
  pub reference_kind : MessageReferenceKind
  pub queue_position : Option ℕ

pub record NodeView : Type 0 where
  pub identity : TreeIdentity
  pub node_id : String
  pub state : MessageState
  pub parent_id : Option String
  pub session_id : Option String

pub record FailureResult : Type 0 where
  pub affected : List NodeUiTarget
  pub queue_update : Option (List QueueEntry)
  pub snapshot : Option TreeSnapshot
