-- ===== src/Admin/Flows.antt =====
-- The one-use OAuth flows of backend/db/admin_auth.py: create_flow and consume_flow.
use x_bray.Base.{
  ℕ, ◌+◌, String, Bool, true, false, Option, none, some, ◌==◌, ◌&&◌, ◌||◌, leb, is_none, ltb,
  count_where, update_where, find_where, any_where, if◌then◌else◌,
}
use x_bray.Admin.Tables.{Bytes, FlowRow, AuthDb, Outcome, returned, ◌>>=◌, insert_unique}

abbrev pub second : ℕ
second = 1_000_000

abbrev pub hour : ℕ
hour = 3_600_000_000

-- The keyword arguments of `create_flow`, less its clock and its limit.
pub record NewFlow : Type 0 where
  pub flow_id : String
  pub handle_hash : String
  pub state_hash : String
  pub binding_hash : String
  pub ciphertext : Bytes
  pub nonce : Bytes
  pub key_version : String
  pub callback_url : String
  pub expires_at : ℕ

-- `created_at >= now - 1 hour` of one browser, without a subtraction that stops at 0.
abbrev pub is_recent_flow : String → ℕ → FlowRow → Bool
is_recent_flow binding_hash now row =
    row.browser_binding_hash == binding_hash && leb now (row.created_at + hour)

abbrev pub flow_row : NewFlow → ℕ → FlowRow
flow_row flow now = record {
  id = flow.flow_id;
  flow_handle_hash = flow.handle_hash;
  state_hash = flow.state_hash;
  browser_binding_hash = flow.binding_hash;
  verifier_ciphertext = flow.ciphertext;
  nonce = flow.nonce;
  key_version = flow.key_version;
  callback_url = flow.callback_url;
  created_at = now;
  expires_at = flow.expires_at;
  consumed_at = none;
}

abbrev pub repeats_flow : NewFlow → FlowRow → Bool
repeats_flow flow row =
    row.id == flow.flow_id
    || row.flow_handle_hash == flow.handle_hash
    || row.state_hash == flow.state_hash

abbrev pub insert_flow : NewFlow → ℕ → AuthDb → Outcome (Bool × AuthDb)
insert_flow flow now db =
    insert_unique (any_where (repeats_flow flow) db.flows) (flow_row flow now) db.flows >>= λ flows.
    returned (true, record db { flows = flows })

unfoldable pub create_flow : NewFlow → ℕ → ℕ → AuthDb → Outcome (Bool × AuthDb)
create_flow flow max_per_hour now db =
    if leb max_per_hour (count_where (is_recent_flow flow.binding_hash now) db.flows)
    then returned (false, db)
    else insert_flow flow now db

abbrev pub is_open_flow : String → String → String → ℕ → FlowRow → Bool
is_open_flow state_hash handle_hash binding_hash now row =
    row.state_hash == state_hash
    && row.flow_handle_hash == handle_hash
    && row.browser_binding_hash == binding_hash
    && is_none row.consumed_at
    && ltb now row.expires_at

abbrev pub consumed_flow : ℕ → FlowRow → FlowRow
consumed_flow now row = record row { consumed_at = some now }

-- The UPDATE and the row that its RETURNING hands back.
unfoldable pub consume_flow : String → String → String → ℕ → AuthDb → Option FlowRow × AuthDb
consume_flow state_hash handle_hash binding_hash now db =
    let open_flow = is_open_flow state_hash handle_hash binding_hash now in
    (
      find_where open_flow db.flows,
      record db { flows = update_where open_flow (consumed_flow now) db.flows },
    )
