-- ===== src/Relay/Proofs/Admission.antt =====
-- Who is let in: the checks of `openFriendStream` against what they are meant to say.
use easy_mc_server.Prelude.{
  ℕ, ◌+◌, ◌≤◌, ◌<◌, ◌≡◌, ◌⊎◌, ◌↔◌, refl, true, false, ==_iff, truthy, Option, none, some, arith, ok,
  inl, inr, Option-cases, ◌∙◌, ap, subst,
}
use easy_mc_server.Prelude.Map.{get}
use easy_mc_server.Relay.State.{Relay, Quotas, Session, Request, Target, Tunnel, TunnelState}
use easy_mc_server.Relay.Sessions.{validate_session, is_expired, is_older_than}
use easy_mc_server.Relay.Streams.{
  active_room_member_count, check_open, check_tunnel, target_matches_tunnel,
}

-- The session answers for the request: it is approved, unused and in time, the request holds its
-- token, and names its room, its friend, its player and, if it is bound to one, its invite.
pub record Answers (now : ℕ) (limits : Quotas) (s : Session) (q : Request) : Type 0 where
  pub has_token : truthy q.session_token ≡ true
  pub token : s.session_token ≡ q.session_token
  pub approved : s.approved ≡ true
  pub unused : s.consumed_at ≡ none
  pub unexpired : (at : ℕ) → s.expires_at ≡ some at → now < at
  pub young : (at : ℕ) → s.issued_at ≡ some at → now ≤ at + limits.max_session_ms
  pub room : s.room_id ≡ q.room_id
  pub invite : (truthy s.invite_id ≡ false) ⊎ (s.invite_id ≡ q.invite_id)
  pub friend : s.friend_id ≡ q.friend_id
  pub player : s.minecraft_uuid ≡ q.minecraft_uuid

-- The tunnel is open for the session's host, leads where the request wants to go, and its room has
-- a free place.
pub record Serves (q : Request) (s : Session) (t : Tunnel) (r : Relay) : Type 0 where
  pub is_open : t.state ≡ TunnelState.opened
  pub host : (truthy s.host_id ≡ false) ⊎ (s.host_id ≡ t.host_id)
  pub target : (q.requested_target ≡ none) ⊎ (q.requested_target ≡ some t.target)
  pub free : active_room_member_count q.room_id r < r.quotas.max_room_members

validate_session-Answers :
    (now : ℕ) (limits : Quotas) (s : Session) (q : Request)
    → validate_session now limits s q ≡ none
    → Answers now limits s q
unfolding validate_session
validate_session-Answers now limits s q h = record {
  has_token = ground arith;
  token = ground (arith, ==_iff s.session_token q.session_token);
  approved = ground arith;
  unused = ground arith;
  unexpired = λ at e. ground arith;
  young = λ at e. ground arith;
  room = ground (arith, ==_iff s.room_id q.room_id);
  invite = ground (arith, ==_iff s.invite_id q.invite_id);
  friend = ground (arith, ==_iff s.friend_id q.friend_id);
  player = ground (arith, ==_iff s.minecraft_uuid q.minecraft_uuid);
}

not_expired :
    (now : ℕ) (o : Option ℕ) → ((at : ℕ) → o ≡ some at → now < at) → is_expired now o ≡ false
not_expired now none h = refl
not_expired now (some t) h = ground (arith, h t refl)

not_older :
    (limit now : ℕ) (o : Option ℕ)
    → ((at : ℕ) → o ≡ some at → now ≤ at + limit)
    → is_older_than limit now o ≡ false
not_older limit now none h = refl
not_older limit now (some t) h = ground (arith, h t refl)

Answers-validate_session :
    (now : ℕ) (limits : Quotas) (s : Session) (q : Request)
    → Answers now limits s q
    → validate_session now limits s q ≡ none
unfolding validate_session
Answers-validate_session now limits s q h = ground (
  arith,
  not_expired now s.expires_at h.unexpired,
  not_older limits.max_session_ms now s.issued_at h.young,
  ==_iff s.session_token q.session_token,
  ==_iff s.room_id q.room_id,
  ==_iff s.invite_id q.invite_id,
  ==_iff s.friend_id q.friend_id,
  ==_iff s.minecraft_uuid q.minecraft_uuid,
)

target_matches_iff :
    (o : Option Target) (t : Target)
    → (target_matches_tunnel o t ≡ true) ↔ ((o ≡ none) ⊎ (o ≡ some t))
unfolding target_matches_tunnel
target_matches_iff none t = (λ h. inl refl, λ h. refl)
target_matches_iff (some q) t = (
  λ h. ground (arith, ==_iff q.kind t.kind, ==_iff q.host t.host),
  λ h. ground (arith, ==_iff q.kind t.kind, ==_iff q.host t.host),
)

check_tunnel-Serves :
    (q : Request) (s : Session) (t : Tunnel) (r : Relay)
    → (check_tunnel q s t r ≡ none) ↔ Serves q s t r
unfolding check_tunnel
check_tunnel-Serves q s t r = (
  λ h. record {
    is_open = ground arith;
    host = ground (arith, ==_iff s.host_id t.host_id);
    target = (target_matches_iff q.requested_target t.target).0 (ground arith);
    free = ground arith;
  },
  λ h. ground (arith, ==_iff s.host_id t.host_id, target_matches_iff q.requested_target t.target),
)

-- A request with a given session is let in to a tunnel exactly when the session answers for it, the
-- tunnel is the one of the requested room, and the tunnel serves it.
pub check_open_iff :
    (now : ℕ) (q : Request) (s : Session) (t : Tunnel) (r : Relay)
    → (check_open now q s r ≡ ok t)
      ↔ (Answers now r.quotas s q × (get q.room_id r.tunnels ≡ some t) × Serves q s t r)
unfolding check_open
check_open_iff now q s t r = (
  λ h. elim (Option-cases (validate_session now r.quotas s q)) [
    | inr (e, x) ↦ absurd (ground arith)
    | inl x ↦ elim (Option-cases (get q.room_id r.tunnels)) [
      | inl y ↦ absurd (ground arith)
      | inr (u, y) ↦ elim (Option-cases (check_tunnel q s u r)) [
        | inr (e, z) ↦ absurd (ground arith)
        | inl z ↦
            let u-eq-t : u ≡ t = ground arith in
            (
              validate_session-Answers now r.quotas s q x,
              y ∙ ap some u-eq-t,
              subst (λ (w : Tunnel). Serves q s w r) u-eq-t ((check_tunnel-Serves q s u r).0 z),
            )
      ]
    ]
  ],
  λ h. ground (
    arith,
    h.1,
    Answers-validate_session now r.quotas s q h.0,
    (check_tunnel-Serves q s t r).1 h.2,
  ),
)
