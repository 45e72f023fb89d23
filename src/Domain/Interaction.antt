-- ===== src/Domain/Interaction.antt =====
-- The outreach state machine (include/ccmcp/domain/interaction.h, src/domain/interaction.cpp) and
-- the identifiers of include/ccmcp/core/ids.h that it carries. An identifier is its text.
pub mod Machine
use career_coordination_mcp.Prelude.{Str, Bool, true, false, if◌then◌else◌}

pub data InteractionState : Type 0 where
  draft ready sent responded closed : InteractionState

pub data InteractionEvent : Type 0 where
  prepare send receive_reply close : InteractionEvent

pub record Interaction : Type 0 where
  pub interaction_id : Str
  pub contact_id : Str
  pub opportunity_id : Str
  pub state : InteractionState

-- `Interaction::can_transition`, on the state that it reads
unfoldable pub allowed : InteractionState → InteractionEvent → Bool
allowed draft prepare = true
allowed draft close = true
allowed ready send = true
allowed ready close = true
allowed sent receive_reply = true
allowed sent close = true
allowed responded close = true
allowed _ _ = false

-- The state that the second `switch` of `Interaction::apply` writes
unfoldable pub target : InteractionEvent → InteractionState
target prepare = ready
target send = sent
target receive_reply = responded
target close = closed

unfoldable pub can_transition : Interaction → InteractionEvent → Bool
unfolding allowed
can_transition i event = allowed i.state event

-- `Interaction::apply`: the object afterwards and the returned flag
unfoldable pub apply : Interaction → InteractionEvent → Interaction × Bool
unfolding can_transition target
apply i event =
    if can_transition i event then (record i { state = target event }, true) else (i, false)
