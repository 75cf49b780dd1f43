-- ===== src/Service/InMemory.antt =====
-- The store in memory as a repository: it takes part in no transaction and knows no presence.
use easy_mc_server.Prelude.{none, some}
use easy_mc_server.Prelude.Map.{get}
use easy_mc_server.Service.Memory.{
  Store, save_room, read_room, save_invite, read_invite, read_invite_by_token, save_approval,
  read_approval, save_session, increment_rate_limit_counter, record_audit_event,
}
use easy_mc_server.Service.Repository.{Repository, View}

abbrev pub memory : Repository Store
memory = record {
  save_room = save_room;
  read_room = read_room;
  save_invite = save_invite;
  read_invite = read_invite;
  read_invite_by_token = read_invite_by_token;
  save_approval = save_approval;
  read_approval = read_approval;
  save_session = save_session;
  increment_rate_limit_counter = increment_rate_limit_counter;
  record_audit_event = some record_audit_event;
  read_presence = none;
}

abbrev pub view_of : Store → View
view_of s = record {
  rooms = λ k. get k s.rooms;
  invites = λ k. get k s.invites;
  approvals = λ k. get k s.approvals;
  sessions = λ k. get k s.sessions;
}
