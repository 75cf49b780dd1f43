-- ===== src/Service/Run.antt =====
-- A history of calls on the room service, each with its time and what it draws. A call is done before
-- the next begins. Calls of the source, which await the repository, may overlap where the repository
-- does not run transactions one after another, as the store in memory: Overlap has the two parts of a
-- decision that may come apart there.
use easy_mc_server.Prelude.{ℕ, none, Text, undefined, ◌≡◌}
use easy_mc_server.Service.Repository.{Repository, View}
use easy_mc_server.Service.Rooms.{
  Options, Draw, create_room, create_invite, revoke_invite, regenerate_invite,
}
use easy_mc_server.Service.Joins.{JoinRequest, Decision, create_join_request, decide_join_request}

pub data Call : Type 0 where
  creates_room : Text → Text → Text → Text → Call
  creates_invite : Text → Text → Call
  revokes : Text → Text → Text → Call
  regenerates : Text → Text → Call
  asks : JoinRequest → Call
  decides : Text → Decision → Call

-- The actor that a call names; a join request has none.
unfoldable pub caller_of : Call → Text
caller_of (creates_room actor alias version profile) = actor
caller_of (creates_invite actor room) = actor
caller_of (revokes actor invite reason) = actor
caller_of (regenerates actor invite) = actor
caller_of (asks q) = undefined
caller_of (decides actor d) = actor

pub record Stamped : Type 0 where
  pub now : ℕ
  pub draw : Draw
  pub call : Call

module _ {S : Type 0} (repo : Repository S) (options : Options) where
  unfoldable pub perform : ℕ → Draw → Call → S → S
  perform now draw (creates_room actor alias version profile) s =
      (create_room repo options now draw actor alias version profile s).0
  perform now draw (creates_invite actor room) s =
      (create_invite repo options now draw actor room s).0
  perform now draw (revokes actor invite reason) s =
      (revoke_invite repo now draw actor invite reason s).0
  perform now draw (regenerates actor invite) s =
      (regenerate_invite repo options now draw actor invite s).0
  perform now draw (asks q) s = (create_join_request repo options now draw q s).0
  perform now draw (decides actor d) s = (decide_join_request repo options now draw actor d s).0

  abbrev pub step : S → Stamped → S
  step s c = perform c.now c.draw c.call s

-- The id that a join request draws names no approval yet.
abbrev pub IsFreshFor : Draw → Call → View → Type 0
IsFreshFor draw (asks q) v = v.approvals draw.id ≡ none
IsFreshFor draw _ v = Unit
