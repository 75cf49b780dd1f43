-- ===== src/HostRuntime/Approvals.antt =====
-- `createBridgeApprovalEvent` and `createApprovalUiState`: what the host is asked when a friend is seen
-- at the server. The titles are left out.
use easy_mc_server.Prelude.{
  Bool, true, false, not, ◌&&◌, ◌||◌, Text, undefined, str, truthy, ◌==◌, Result, ok, err,
  if◌then◌else◌,
}
use easy_mc_server.HostRuntime.Input.{FailureReason, server_uuid_missing}

pub record BridgeRequest : Type 0 where
  pub room_id : Text
  pub connection_id : Text
  pub display_name : Text
  pub server_observed_uuid : Text
  pub claimed_friend_id : Text
  pub claimed_minecraft_uuid : Text

-- `claimed && claimed !== observed`, as a Boolean.
unfoldable pub is_mismatch : Text → Text → Bool
is_mismatch claimed observed = truthy claimed && not (claimed == observed)

pub record ApprovalEvent : Type 0 where
  pub room_id : Text
  pub connection_id : Text
  pub friend_id : Text
  pub display_name : Text
  pub minecraft_uuid : Text
  pub claimed_minecraft_uuid : Text
  pub identity_mismatch : Bool

unfoldable pub create_bridge_approval_event : BridgeRequest → Result FailureReason ApprovalEvent
unfolding is_mismatch
create_bridge_approval_event q =
    if truthy q.server_observed_uuid
    then ok (record {
      room_id = q.room_id;
      connection_id = q.connection_id;
      friend_id = q.claimed_friend_id;
      display_name = q.display_name;
      minecraft_uuid = q.server_observed_uuid;
      claimed_minecraft_uuid = q.claimed_minecraft_uuid;
      identity_mismatch = is_mismatch q.claimed_minecraft_uuid q.server_observed_uuid;
    })
    else err server_uuid_missing

pub data ApprovalUiState : Type 0 where
  empty : ApprovalUiState
  waiting_for_server_uuid : ApprovalUiState
  needs_review : ApprovalUiState
  approved : ApprovalUiState
  denied : ApprovalUiState
  blocked : ApprovalUiState
  expired : ApprovalUiState
  host_unavailable : ApprovalUiState
  already_allowed : ApprovalUiState
  identity_changed : ApprovalUiState
  error : ApprovalUiState

pub record ApprovalInput : Type 0 where
  pub has_error : Bool
  pub decision : Text
  pub status : Text
  pub connection_id : Text
  pub server_observed_uuid : Text
  pub claimed_minecraft_uuid : Text

-- An action that is missing, or `null`, is undefined.
pub record ApprovalView : Type 0 where
  pub state : ApprovalUiState
  pub primary_action : Text
  pub secondary_action : Text
  pub identity_mismatch : Bool

abbrev shown : ApprovalUiState → Text → ApprovalView
shown state action = record {
  state = state;
  primary_action = action;
  secondary_action = undefined;
  identity_mismatch = false;
}

unfoldable pub create_approval_ui_state : ApprovalInput → ApprovalView
unfolding is_mismatch
create_approval_ui_state i =
    if i.has_error
    then shown error undefined
    else if i.decision == str "approved"
    then shown approved undefined
    else if i.decision == str "denied"
    then shown denied undefined
    else if i.decision == str "blocked"
    then shown blocked undefined
    else if i.status == str "expired"
    then shown expired (str "request_again")
    else if i.status == str "host_unavailable"
    then shown host_unavailable undefined
    else if i.status == str "already_allowed"
    then shown already_allowed undefined
    else if i.status == str "identity_changed"
        || (truthy i.server_observed_uuid
            && is_mismatch i.claimed_minecraft_uuid i.server_observed_uuid)
    then record {
      state = identity_changed;
      primary_action = str "review_again";
      secondary_action = str "deny";
      identity_mismatch = true;
    }
    else if not (truthy i.connection_id)
    then shown empty undefined
    else if not (truthy i.server_observed_uuid)
    then shown waiting_for_server_uuid undefined
    else record {
      state = needs_review;
      primary_action = str "approve";
      secondary_action = str "deny";
      identity_mismatch = is_mismatch i.claimed_minecraft_uuid i.server_observed_uuid;
    }
