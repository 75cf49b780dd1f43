-- ===== src/Relay/Proofs/Replay.antt =====
-- A session opens one stream: once it is consumed, no request opens another with it until it is
-- authorized anew.
use easy_mc_server.Prelude.{
  subst, ap, ℕ, ◌≡◌, refl, Bool, true, false, Text, Option, none, some, List, arith, String, ok,
  err, Result, is_some, All,
}
use easy_mc_server.Prelude.Map.{Map}
use easy_mc_server.Prelude.Map.Laws.{get-put_self}
use easy_mc_server.Relay.State.{Relay, Quotas, init, Reason, Session, Request}
use easy_mc_server.Relay.Sessions.{
  ServiceAnswer, read_session, store_service_session, normalize_session,
}
use easy_mc_server.Relay.Streams.{open_friend_stream, open_friend_stream_later, fail_open, admit}
use easy_mc_server.Relay.Cases.{open_friend_stream_cases, open_friend_stream_later_cases}
use easy_mc_server.Relay.Run.{Call, opens_stream, opens_later, step, run}
use easy_mc_server.Relay.Proofs.Admission.{check_open_iff}
use easy_mc_server.Relay.Proofs.Consumed.{
  is_refused, IsConsumed, IsKeyed, session_of, Spares, run-IsConsumed, run-IsKeyed,
}

-- The session that is read lies under the id that the request and the service name.
read_session-id :
    (answer : Option ServiceAnswer) (q : Request) (r : Relay) (s : Session)
    → IsKeyed r
    → (read_session answer q r).1 ≡ ok s
    → s.session_id ≡ session_of answer q
unfolding read_session store_service_session normalize_session
read_session-id none q r s h e = h q.session_id s (ground arith)
read_session-id (some (err x)) q r s h e = cc
read_session-id (some (ok a)) q r s h e = ground arith

-- What is read of a consumed session is a consumed session.
read_session-consumed :
    (answer : Option ServiceAnswer) (q : Request) (r : Relay) (s : Session)
    → IsConsumed (session_of answer q) r
    → (read_session answer q r).1 ≡ ok s
    → is_some s.consumed_at ≡ true
unfolding read_session store_service_session normalize_session
read_session-consumed none q r s h e = ground arith
read_session-consumed (some (err x)) q r s h e = cc
read_session-consumed (some (ok a)) q r s h e = ground arith

abbrev pub IsRefused : {A : Type 0} → Result Reason A → Type 0
IsRefused x = is_refused x ≡ true

consumed-IsRefused :
    (now : ℕ) (uuid : String) (answer : Option ServiceAnswer) (q : Request) (r : Relay)
    → IsConsumed (session_of answer q) r
    → IsRefused (open_friend_stream now uuid answer q r).1
unfolding fail_open
consumed-IsRefused now uuid answer q r h =
    open_friend_stream_cases now uuid answer q r (λ x. IsRefused x.1) (λ e. refl)
      (λ s t found passed. absurd (
        ground (
          arith,
          read_session-consumed answer q r s h found,
          ((check_open_iff now q s t _).0 passed).0.unused,
        )))

open-IsConsumed :
    (now : ℕ) (uuid : String) (answer : Option ServiceAnswer) (q : Request) (r : Relay)
    → IsKeyed r
    → is_refused (open_friend_stream now uuid answer q r).1 ≡ false
    → IsConsumed (session_of answer q) (open_friend_stream now uuid answer q r).0
unfolding fail_open admit
open-IsConsumed now uuid answer q r h =
    open_friend_stream_cases now uuid answer q r
      (λ x. is_refused x.1 ≡ false → IsConsumed (session_of answer q) x.0) (λ e. λ b. cc)
      (λ s t found _.
        λ b. rw (← read_session-id answer q r s h found) (rw (get-put_self s.session_id) refl))

-- A session that was read as consumed opens no stream later.
later-IsRefused :
    (held : Bool) (now : ℕ) (uuid : String) (found : Result Reason Session) (q : Request)
    (r : Relay)
    → ((s : Session) → found ≡ ok s → is_some s.consumed_at ≡ true)
    → IsRefused (open_friend_stream_later held now uuid found q r).1
unfolding fail_open
later-IsRefused held now uuid found q r used =
    open_friend_stream_later_cases now uuid found q r (λ x. IsRefused x.1) held (λ e. refl)
      (λ s t is passed.
        absurd (ground (arith, used s is, ((check_open_iff now q s t r).0 passed).0.unused)))

later-IsConsumed :
    (now : ℕ) (uuid : String) (s : Session) (q : Request) (r : Relay)
    → is_refused (open_friend_stream_later true now uuid (ok s) q r).1 ≡ false
    → IsConsumed s.session_id (open_friend_stream_later true now uuid (ok s) q r).0
unfolding fail_open admit
later-IsConsumed now uuid s q r =
    open_friend_stream_later_cases now uuid (ok s) q r
      (λ x. is_refused x.1 ≡ false → IsConsumed s.session_id x.0) true (λ e. λ b. cc)
      (λ x t is _. λ b.
        rw (ap (λ (y : Session). y.session_id) (ok-injective is))
          (rw (get-put_self x.session_id) refl))
  where
    ok-injective : {a b : Session} → ◌≡◌ {A = Result Reason Session} (ok a) (ok b) → a ≡ b
    ok-injective h = cc h

-- A call that opens a stream with the session of this id: at once, or in the second step of a request
-- while the map still holds the session that was read.
pub data OpensWith (k : Text) (r : Relay) : ℕ × Call → Type 0 where
  at_once :
      (now : ℕ) (uuid : String) (answer : Option ServiceAnswer) (q : Request)
      → session_of answer q ≡ k
      → is_refused (open_friend_stream now uuid answer q r).1 ≡ false
      → OpensWith k r (now, opens_stream uuid answer q)
  in_second_step :
      (now : ℕ) (uuid : String) (s : Session) (q : Request)
      → s.session_id ≡ k
      → is_refused (open_friend_stream_later true now uuid (ok s) q r).1 ≡ false
      → OpensWith k r (now, opens_later true uuid (ok s) q)

OpensWith-IsConsumed :
    (k : Text) (r : Relay) (c : ℕ × Call) → IsKeyed r → OpensWith k r c → IsConsumed k (step r c)
unfolding step
OpensWith-IsConsumed k r _ keyed (at_once now uuid a q is_k opened) =
    subst (λ j. IsConsumed j (open_friend_stream now uuid a q r).0) is_k
      (open-IsConsumed now uuid a q r keyed opened)
OpensWith-IsConsumed k r _ keyed (in_second_step now uuid s q is_k opened) =
    subst (λ j. IsConsumed j (open_friend_stream_later true now uuid (ok s) q r).0) is_k
      (later-IsConsumed now uuid s q r opened)

-- In a relay with any history of calls: once a request has opened a stream with a session, at once or
-- in its second step while the map still holds the session that it read, every request about that
-- session that is read after any further calls is refused, at once or in a second step after still
-- more calls, as long as none of the calls up to the reading authorizes the session anew.
pub session_opens_once :
    (credentials : Map Text) (quotas : Quotas) (past calls more : List (ℕ × Call))
    (first : ℕ × Call) (k : Text) (later : ℕ) (uuid : String) (answer : Option ServiceAnswer)
    (q : Request)
    → let r = run (init credentials quotas) past in
      OpensWith k r first
      → All (Spares k) calls
      → session_of answer q ≡ k
      → let r' = run (step r first) calls in
        (is_refused (open_friend_stream later uuid answer q r').1 ≡ true)
        × ((held : Bool)
            → let (r'', found) = read_session answer q r' in
              is_refused (open_friend_stream_later held later uuid found q (run r'' more)).1 ≡ true)
session_opens_once credentials quotas past calls more first k later uuid answer q opens spares
      same =
    let r = run (init credentials quotas) past in
    let opened = OpensWith-IsConsumed k r first (run-IsKeyed credentials quotas past) opens in
    let used = run-IsConsumed k (step r first) calls spares opened in
    let at : IsConsumed (session_of answer q) (run (step r first) calls) = rw same used in
    (
      consumed-IsRefused later uuid answer q _ at,
      λ held. later-IsRefused held later uuid _ q _ (λ s. read_session-consumed answer q _ s at),
    )
