-- ===== src/Service/Proofs/Tokens.antt =====
-- A token that is regenerated opens the room, and the one before it no longer does.
use easy_mc_server.Prelude.{
  ℕ, ◌+◌, ◌<◌, ◌≡◌, ◌≢◌, refl, true, none, some, [], ◌∷◌, ◌++◌, Text, ==_iff, truthy, ok, arith,
}
use easy_mc_server.Prelude.Map.{get, put}
use easy_mc_server.Prelude.Map.Laws.{get-put, get-put_self}
use easy_mc_server.Protocol.{InviteState, can_actor_perform, invite_unavailable}
use easy_mc_server.Service.Records.{Room, Invite, invite_regenerated, is_unexpired}
use easy_mc_server.Service.Memory.{
  Store, read_room, read_invite, sanitize_credential, sanitize_invite, save_invite, indexed_invite,
  is_invite_usable, read_invite_by_token, record_audit_event, fail,
}
use easy_mc_server.Service.Steps.{audit_with}
use easy_mc_server.Service.Rooms.{
  Options, Draw, host_may, new_invite, revoked_invite, audit, read_authorized_invite,
  regenerate_invite,
}
use easy_mc_server.Service.InMemory.{memory}

module _ (options : Options) (now : ℕ) (draw : Draw) (actor k : Text) (i : Invite) (r : Room)
    (s : Store) where
  abbrev old_invite : Invite
  old_invite = record i { state = InviteState.revoked; revoked_at = some now }

  abbrev next_invite : Invite
  next_invite = record {
    id = draw.id;
    room_id = i.room_id;
    token_hash = s.hash draw.token;
    state = InviteState.active;
    created_at = now;
    expires_at = some (now + options.invite_ttl_ms);
    revoked_at = none;
  }

  swapped : Store
  swapped = record s {
    invite_token_index =
        put (s.hash draw.token) draw.id (put i.token_hash i.id s.invite_token_index);
    invites = put draw.id next_invite (put i.id old_invite s.invites);
    audit_events =
        s.audit_events
        ++ (record {
          id = draw.audit_id;
          occurred_at = now;
          event = invite_regenerated actor i.room_id draw.id i.id (now + options.invite_ttl_ms);
        }
            ∷ []);
  }

  regenerate_invite-swapped :
      get k s.invites ≡ some i
      → get i.room_id s.rooms ≡ some r
      → r.host_id ≡ actor
      → truthy actor ≡ true
      → truthy i.id ≡ true
      → truthy i.token_hash ≡ true
      → truthy draw.id ≡ true
      → truthy (s.hash draw.token) ≡ true
      → regenerate_invite memory options now draw actor k s ≡ (
        swapped,
        ok (
          record { id = draw.id; token = draw.token; expires_at = now + options.invite_ttl_ms },
          i.id,
        ),
      )
  unfolding swapped regenerate_invite read_authorized_invite host_may can_actor_perform
      revoked_invite new_invite audit audit_with read_invite read_room save_invite sanitize_invite
      sanitize_credential record_audit_event
  regenerate_invite-swapped at room_at hosts named has_id has_hash has_draw has_token =
      ground (arith, ==_iff r.host_id actor)

  read-next :
      (t : ℕ)
      → truthy draw.token ≡ true
      → truthy draw.id ≡ true
      → t < now + options.invite_ttl_ms
      → read_invite_by_token t draw.token swapped ≡ ok next_invite
  unfolding swapped read_invite_by_token indexed_invite is_invite_usable is_unexpired
  read-next t has_token has_draw early =
      let h = s.hash draw.token in
      ground (
        arith,
        get-put_self h draw.id (put i.token_hash i.id s.invite_token_index),
        get-put_self draw.id next_invite (put i.id old_invite s.invites),
      )

  read-old :
      (old : Text) (t : ℕ)
      → s.hash old ≡ i.token_hash
      → s.hash draw.token ≢ i.token_hash
      → draw.id ≢ i.id
      → read_invite_by_token t old swapped ≡ fail invite_unavailable
  unfolding swapped read_invite_by_token indexed_invite is_invite_usable
  read-old old t hashes other_hash other_id =
      let index = put i.token_hash i.id s.invite_token_index in
      ground (
        arith,
        hashes,
        get-put (s.hash draw.token) i.token_hash draw.id index,
        get-put_self i.token_hash i.id s.invite_token_index,
        get-put draw.id i.id next_invite (put i.id old_invite s.invites),
        get-put_self i.id old_invite s.invites,
        ==_iff (s.hash draw.token) i.token_hash,
        ==_iff draw.id i.id,
      )

-- A host who regenerates an invite is answered with the token that was drawn, its id and its time, and
-- with the id of the old invite; and in the store in memory right after the call, where the two tokens
-- have different hashes and the new id differs from the old one, that token finds the new invite until
-- its time is over, and the token of the old invite finds none at any time.
pub regenerate_invite-read_invite_by_token :
    (options : Options) (now : ℕ) (draw : Draw) (actor k old : Text) (i : Invite) (r : Room)
    (s : Store) (t : ℕ)
    → get k s.invites ≡ some i
    → get i.room_id s.rooms ≡ some r
    → r.host_id ≡ actor
    → truthy actor ≡ true
    → truthy i.id ≡ true
    → truthy i.token_hash ≡ true
    → truthy draw.id ≡ true
    → truthy draw.token ≡ true
    → truthy (s.hash draw.token) ≡ true
    → s.hash old ≡ i.token_hash
    → s.hash draw.token ≢ i.token_hash
    → draw.id ≢ i.id
    → t < now + options.invite_ttl_ms
    → let (s', answer) = regenerate_invite memory options now draw actor k s in
      (answer
        ≡ ok (
          record { id = draw.id; token = draw.token; expires_at = now + options.invite_ttl_ms },
          i.id,
        ))
      × (read_invite_by_token t draw.token s'
          ≡ ok (record {
            id = draw.id;
            room_id = i.room_id;
            token_hash = s.hash draw.token;
            state = InviteState.active;
            created_at = now;
            expires_at = some (now + options.invite_ttl_ms);
            revoked_at = none;
          }))
      × ((later : ℕ) → read_invite_by_token later old s' ≡ fail invite_unavailable)
regenerate_invite-read_invite_by_token options now draw actor k old i r s t at room_at hosts named
      has_id has_hash has_draw has_token has_new_hash hashes other_hash other_id early =
    rw
      (regenerate_invite-swapped options now draw actor k i r s at room_at hosts named has_id
        has_hash has_draw has_new_hash)
      (
        refl,
        read-next options now draw actor k i r s t has_token has_draw early,
        λ later. read-old options now draw actor k i r s old later hashes other_hash other_id,
      )
