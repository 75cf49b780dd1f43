-- ===== src/Service/Proofs/Refines.antt =====
-- The room service over a lawful repository makes moves of the machine only.
use easy_mc_server.Prelude.{ℕ, ◌≡◌, sym, subst, List}
use easy_mc_server.Prelude.Histories.{run_all, EachFresh, run_all_induction}
use easy_mc_server.Service.Repository.{Repository, View, empty_view, IsLawful}
use easy_mc_server.Service.Rooms.{Options, Draw}
use easy_mc_server.Service.Run.{
  Call, creates_room, creates_invite, revokes, regenerates, asks, decides, Stamped, perform, step,
  caller_of, IsFreshFor,
}
use easy_mc_server.Service.Machine.{Moves, IsSound, empty_view-IsSound}
use easy_mc_server.Service.Proofs.Sound.{Moves-IsSound}
use easy_mc_server.Service.Proofs.HostMoves.{
  create_room-Moves, create_invite-Moves, revoke_invite-Moves, regenerate_invite-Moves,
}
use easy_mc_server.Service.Proofs.JoinMoves.{create_join_request-Moves, decide_join_request-Moves}

module _ {S : Type 0} (repo : Repository S) (view : S → View) (law : IsLawful repo view) where
  -- Every call over a lawful repository that runs without another in between, with a fresh id for a
  -- join request, makes moves of the machine that are open to its caller: what is seen changes only as
  -- they say. A caller opens only a room of its own, and only a caller who is the host of the room
  -- invites, revokes and decides; a join request, which names no caller, only asks.
  pub perform-Moves :
      (options : Options) (now : ℕ) (draw : Draw) (call : Call) (s : S)
      → IsFreshFor draw call (view s)
      → Moves (caller_of call) (view s) (view (perform repo options now draw call s))
  unfolding perform caller_of
  perform-Moves options now draw (creates_room actor alias version profile) s fresh =
      create_room-Moves repo view law options now draw actor alias version profile s
  perform-Moves options now draw (creates_invite actor room) s fresh =
      create_invite-Moves repo view law options now draw actor room s
  perform-Moves options now draw (revokes actor invite reason) s fresh =
      revoke_invite-Moves repo view law now draw actor invite reason s
  perform-Moves options now draw (regenerates actor invite) s fresh =
      regenerate_invite-Moves repo view law options now draw actor invite s
  perform-Moves options now draw (asks q) s fresh =
      create_join_request-Moves repo view law options now draw q s fresh
  perform-Moves options now draw (decides actor d) s fresh =
      decide_join_request-Moves repo view law options now draw actor d s

  -- After any history of calls that do not overlap, with fresh ids, from a repository that shows
  -- nothing: approvals lie under their ids, every session rests on a request that was approved for its
  -- room, invite and player, and no two sessions on the same request.
  pub run_all-IsSound :
      (options : Options) (s : S) (calls : List Stamped)
      → view s ≡ empty_view
      → EachFresh (step repo options) (λ c x. IsFreshFor c.draw c.call (view x)) s calls
      → IsSound (view (run_all (step repo options) s calls))
  run_all-IsSound options s calls empty fresh =
      run_all_induction (step repo options) (λ c x. IsFreshFor c.draw c.call (view x))
        (λ x. IsSound (view x))
        (λ x c f h. Moves-IsSound (perform-Moves options c.now c.draw c.call x f) h) s calls fresh
        (subst IsSound (sym empty) empty_view-IsSound)
