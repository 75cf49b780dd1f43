-- ===== src/Relay/Cases.antt =====
-- How each call of the relay can end: to prove something of a call, prove it of every exit.
use easy_mc_server.Prelude.{
  Bool, ℕ, String, ◌≡◌, inl, inr, true, false, Option, none, some, Text, max, List, [], Result, ok,
  err, Option-cases, ltb, get_or, ◌+◌, ◌-◌, Bool-cases, Result-cases, ◌==◌, or_else, str,
}
use easy_mc_server.Prelude.Map.{get}
use easy_mc_server.Relay.State.{
  Target, open_proxy_blocked, host_tunnel_conflict, Reason, unauthenticated, invalid_transfer,
  host_tunnel_unavailable, host_tunnel_unauthorized, Payload, Stream, Session, Tunnel, PublicStream,
  Request, Relay, is_open, tunnel_is_open, host_tunnel_authorized,
}
use easy_mc_server.Relay.Tunnels.{
  CloseTunnel, ClosedTunnel, OpenTunnel, close_host_tunnel, close_found, shut_tunnel,
  tunnel_for_close, open_host_tunnel, open_to, make_room, install_tunnel,
  is_minecraft_loopback_target,
}
use easy_mc_server.Relay.Sessions.{ServiceAnswer, read_session}
use easy_mc_server.Relay.Streams.{
  open_friend_stream, open_with_session, check_open, fail_open, admit, new_stream, marked,
  open_friend_stream_later,
}
use easy_mc_server.Relay.Transfers.{
  Amount, nat, Transfer, Echo, record_transfer, relay_echo, transfer_within, stop, commit_transfer,
  echo_frames, byte_length, positive_safe_integer,
}
use easy_mc_server.Relay.Disconnect.{disconnect_stream, try_disconnect, finish_disconnect, Attempt}

module _ {ℓ} (now : ℕ) (key : Text) (s : Stream) (n : ℕ) (r : Relay) where
  pub transfer_within_cases :
      (P : Relay × Result Reason Transfer → Type ℓ)
      → ((label : String) (e : Reason) → P (stop now label e key s r))
      → let room = get_or (get s.room_id r.room_bytes) 0 + n in
        let host = get_or (get s.host_id r.monthly_host_bytes) 0 + n in
        (ltb r.quotas.max_session_ms (now - s.opened_at) ≡ false
          → ltb r.quotas.idle_timeout_ms (now - s.last_activity_at) ≡ false
          → ltb r.quotas.max_room_bytes room ≡ false
          → ltb r.quotas.max_monthly_host_bytes host ≡ false
          → P (commit_transfer now key s n room host r))
        → P (transfer_within now key s n r)
  unfolding transfer_within
  transfer_within_cases P stopped committed =
      let room = get_or (get s.room_id r.room_bytes) 0 + n in
      let host = get_or (get s.host_id r.monthly_host_bytes) 0 + n in
      elim (Bool-cases (ltb r.quotas.max_session_ms (now - s.opened_at))) [
        | inl a ↦ rw (a, transfer_within) (stopped _ _)
        | inr a ↦
            rw (a, transfer_within)
              (elim (Bool-cases (ltb r.quotas.idle_timeout_ms (now - s.last_activity_at))) [
                | inl b ↦ rw b (stopped _ _)
                | inr b ↦ rw b (elim (Bool-cases (ltb r.quotas.max_room_bytes room)) [
                  | inl c ↦ rw c (stopped _ _)
                  | inr c ↦ rw c (elim (Bool-cases (ltb r.quotas.max_monthly_host_bytes host)) [
                    | inl d ↦ rw d (stopped _ _)
                    | inr d ↦ rw d (committed a b c d)
                  ])
                ])
              ])
      ]

module _ {ℓ} (now : ℕ) (key : Text) (r : Relay) where
  pub record_transfer_cases :
      (P : Relay × Result Reason Transfer → Type ℓ) (a : Amount)
      → ((e : Reason) → P (r, err e))
      → ((s : Stream) (n : ℕ)
          → get key r.streams ≡ some s
          → is_open s.state ≡ true
          → positive_safe_integer a ≡ some n
          → P (transfer_within now key s n r))
      → P (record_transfer now key a r)
  unfolding record_transfer
  record_transfer_cases P a refused passed = elim (Option-cases (get key r.streams)) [
    | inl e ↦ rw (e, record_transfer) (refused unauthenticated)
    | inr (s, e) ↦
        rw (e, record_transfer)
          (elim (Bool-cases (is_open s.state)) [
            | inl o ↦ rw o (elim (Option-cases (positive_safe_integer a)) [
              | inl z ↦ rw z (refused invalid_transfer)
              | inr (n, z) ↦ rw z (passed s n e o z)
            ])
            | inr o ↦ rw o (refused unauthenticated)
          ])
  ]

  pub disconnect_stream_cases :
      (P : Relay × (Result Reason PublicStream × List Attempt) → Type ℓ) (most failing : ℕ)
      → (get key r.streams ≡ none → P (r, (err unauthenticated, [])))
      → ((s : Stream)
          → get key r.streams ≡ some s
          → P (
              finish_disconnect now
                (max 1 most)
                key
                (try_disconnect (max 1 most) 1 failing now key s r.journal [])
                r))
      → P (disconnect_stream now key most failing r)
  unfolding disconnect_stream
  disconnect_stream_cases P most failing refused passed = elim (Option-cases (get key r.streams)) [
    | inl e ↦ rw (e, disconnect_stream) (refused e)
    | inr (s, e) ↦ rw (e, disconnect_stream) (passed s e)
  ]

module _ {ℓ} (now : ℕ) (key : Text) (payload : Payload) (r : Relay) where
  -- An echo is a transfer of the payload's length, and then, if it passed, the delivery.
  pub relay_echo_cases :
      (P : Relay × Result Reason Echo → Type ℓ)
      → ((e : Reason) → P (r, err e))
      → let (r', sent) = record_transfer now key (nat (byte_length payload)) r in
        ((e : Reason) → P (r', err e))
        → ((s : Stream) (t : Transfer)
            → sent ≡ ok t
            → get key r'.streams ≡ some s
            → P (echo_frames key payload s r'))
        → P (relay_echo now key payload r)
  unfolding relay_echo
  relay_echo_cases P refused failed passed = elim (Option-cases (get key r.streams)) [
    | inl e ↦ rw (e, relay_echo) (refused unauthenticated)
    | inr (s, e) ↦
        rw (e, relay_echo)
          (elim (Bool-cases (is_open s.state)) [
            | inr o ↦ rw o (refused unauthenticated)
            | inl o ↦
                rw o
                  (elim (Result-cases (record_transfer now key (nat (byte_length payload)) r).1) [
                    | inl (c, x) ↦ rw x (failed c)
                    | inr (t, x) ↦
                        rw x
                          (elim (Option-cases (
                            get key
                              (record_transfer now key (nat (byte_length payload)) r).0.streams)) [
                                | inl y ↦ rw y (failed unauthenticated)
                                | inr (s', y) ↦ rw y (passed s' t x y)
                              ])
                  ])
          ])
  ]

module _ {ℓ} (now : ℕ) (c : CloseTunnel) (r : Relay) where
  pub close_host_tunnel_cases :
      (P : Relay × Result Reason ClosedTunnel → Type ℓ)
      → ((e : Reason) → P (r, err e))
      → ((t : Tunnel) → P (r, ok (record { tunnel = t; closed_streams = 0 })))
      → ((key : Text) (t : Tunnel)
          → tunnel_for_close r c ≡ some (key, t)
          → host_tunnel_authorized r t.host_id t.room_id c.host_token ≡ true
          → tunnel_is_open t.state ≡ true
          → let (r', closed) = shut_tunnel now (or_else c.reason (str "host_closed")) key t r in
            P (r', ok closed))
      → P (close_host_tunnel now c r)
  unfolding close_host_tunnel close_found
  close_host_tunnel_cases P refused already shut = elim (Option-cases (tunnel_for_close r c)) [
    | inl e ↦ rw (e, close_host_tunnel) (refused host_tunnel_unavailable)
    | inr ((key, t), e) ↦
        rw (e, close_host_tunnel)
          (elim (Bool-cases (or_else c.host_id t.host_id == t.host_id)) [
            | inr h ↦ rw h (refused host_tunnel_unauthorized)
            | inl h ↦
                rw h
                  (elim (Bool-cases (host_tunnel_authorized r t.host_id t.room_id c.host_token)) [
                    | inr a ↦ rw a (refused host_tunnel_unauthorized)
                    | inl a ↦ rw a (elim (Bool-cases (tunnel_is_open t.state)) [
                      | inl o ↦ rw o (shut key t e a o)
                      | inr o ↦ rw o (already t)
                    ])
                  ])
          ])
  ]

module _ {ℓ} (now : ℕ) (o : OpenTunnel) (r : Relay) where
  pub make_room_cases :
      (P : Option Relay → Type ℓ)
      → P none
      → P (some r)
      → ((c : CloseTunnel) → P (some (close_host_tunnel now c r).0))
      → P (make_room now o r)
  unfolding make_room
  make_room_cases P conflict free replaced = elim (Option-cases (get o.room_id r.tunnels)) [
    | inl e ↦ rw (e, make_room) free
    | inr (t, e) ↦
        rw (e, make_room)
          (elim (Bool-cases (tunnel_is_open t.state)) [
            | inr z ↦ rw z free
            | inl z ↦ rw z (elim (Bool-cases (t.host_id == o.host_id)) [
              | inr h ↦ rw h conflict
              | inl h ↦ rw h (replaced _)
            ])
          ])
  ]

  module _ (uuid : String) (P : Relay × Result Reason Tunnel → Type ℓ) where
    open_to_cases :
        (target : Option Target)
        → ((e : Reason) → P (r, err e))
        → ((t : Target) (r' : Relay)
            → is_minecraft_loopback_target (some t) ≡ true
            → make_room now o r ≡ some r'
            → P (install_tunnel now uuid o t r'))
        → P (open_to now uuid o target r)
    unfolding open_to
    open_to_cases none refused installed = refused open_proxy_blocked
    open_to_cases (some t) refused installed =
        elim (Bool-cases (is_minecraft_loopback_target (some t))) [
          | inr l ↦ rw l (refused open_proxy_blocked)
          | inl l ↦ rw l (elim (Option-cases (make_room now o r)) [
            | inl m ↦ rw m (refused host_tunnel_conflict)
            | inr (r', m) ↦ rw m (installed t r' l m)
          ])
        ]

    pub open_host_tunnel_cases :
        ((e : Reason) → P (r, err e))
        → ((t : Target) (r' : Relay)
            → host_tunnel_authorized r o.host_id o.room_id o.host_token ≡ true
            → is_minecraft_loopback_target (some t) ≡ true
            → make_room now o r ≡ some r'
            → P (install_tunnel now uuid o t r'))
        → P (open_host_tunnel now uuid o r)
    unfolding open_host_tunnel
    open_host_tunnel_cases refused installed =
        elim (Bool-cases (host_tunnel_authorized r o.host_id o.room_id o.host_token)) [
          | inr a ↦ rw (a, open_host_tunnel) (refused host_tunnel_unauthorized)
          | inl a ↦
              rw (a, open_host_tunnel) (open_to_cases o.target refused (λ t r'. installed t r' a))
        ]

module _ {ℓ} (now : ℕ) (uuid : String) (answer : Option ServiceAnswer) (q : Request)
    (r : Relay) where
  pub open_friend_stream_cases :
      (P : Relay × Result Reason PublicStream → Type ℓ)
      → let (r', found) = read_session answer q r in
        ((e : Reason) → P (fail_open now e q r'))
        → ((s : Session) (t : Tunnel)
            → found ≡ ok s
            → check_open now q s r' ≡ ok t
            → P (admit now (new_stream now uuid q s t) s r'))
        → P (open_friend_stream now uuid answer q r)
  unfolding open_friend_stream open_with_session
  open_friend_stream_cases P failed admitted =
      let r' = (read_session answer q r).0 in
      elim (Result-cases (read_session answer q r).1) [
        | inl (e, x) ↦ rw (x, open_friend_stream, open_with_session) (failed e)
        | inr (s, x) ↦
            rw (x, open_friend_stream, open_with_session)
              (elim (Result-cases (check_open now q s r')) [
                | inl (e, y) ↦ rw y (failed e)
                | inr (t, y) ↦ rw y (admitted s t x y)
              ])
      ]

module _ {ℓ} (now : ℕ) (uuid : String) (found : Result Reason Session) (q : Request)
    (r : Relay) where
  -- The second step of a request, whatever the map holds for its session.
  pub open_friend_stream_later_cases :
      (P : Relay × Result Reason PublicStream → Type ℓ) (held : Bool)
      → ((e : Reason) → P (fail_open now e q r))
      → ((s : Session) (t : Tunnel)
          → found ≡ ok s
          → check_open now q s r ≡ ok t
          → let (r', out) = admit now (new_stream now uuid q s t) s r in P (marked held r r', out))
      → P (open_friend_stream_later held now uuid found q r)
  unfolding open_friend_stream_later open_with_session fail_open
  open_friend_stream_later_cases P held failed admitted = elim (Bool-cases held) [
    | inl h ↦ elim (Result-cases found) [
      | inl (e, x) ↦ rw (h, x, open_friend_stream_later, open_with_session) (failed e)
      | inr (s, x) ↦ elim (Result-cases (check_open now q s r)) [
        | inl (e, y) ↦ rw (h, x, y, open_friend_stream_later, open_with_session) (failed e)
        | inr (t, y) ↦ rw (x, y, open_friend_stream_later, open_with_session) (admitted s t x y)
      ]
    ]
    | inr h ↦ elim (Result-cases found) [
      | inl (e, x) ↦ rw (h, x, open_friend_stream_later, open_with_session) (failed e)
      | inr (s, x) ↦ elim (Result-cases (check_open now q s r)) [
        | inl (e, y) ↦ rw (h, x, y, open_friend_stream_later, open_with_session) (failed e)
        | inr (t, y) ↦ rw (x, y, open_friend_stream_later, open_with_session) (admitted s t x y)
      ]
    ]
  ]
