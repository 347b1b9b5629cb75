-- ===== src/Admin/Routes/Replay.antt =====
-- What a successful callback has shown, and what it leaves for a repetition.
use x_bray.Base.{
  ◌∙◌, ℕ, String, Bool, true, false, Option, none, some, List, ◌≡◌, ap, subst, arith, Bool-cases,
  inl, inr, any_where, any_where-cleared, find_where-none,
}
use x_bray.Admin.Tables.{AuthDb, FlowRow}
use x_bray.Admin.Flows.{consume_flow, consumed_flow}
use x_bray.Admin.Sessions.{EventSource}
use x_bray.Admin.Cookies.{cookie_parts}
use x_bray.Admin.Commands.{AuthCommand, run, never, in_order, issues_state}
use x_bray.Admin.Commands.OneUse.{open_at, run-closed}
use x_bray.Admin.Routes.LoginSteps.{logs_in}
use x_bray.Admin.Routes.LoginGrounds.{IsLogin, flow_login-IsLogin, callback-flow_login}
use x_bray.Admin.Routes.Callback.{
  Provider, CallbackSurroundings, SessionSecrets, callback_parameters, callback,
}
use x_bray.Admin.Routes.{AuthConfig, Crypto, flow_cookie_name, Request}

-- A callback that logs in has the parameters and the flow cookie of a flow that was open at that
-- instant, was begun for this callback, and decrypts to the verifier; the provider answers for it with a
-- Google identity, and that user has an active membership.
pub callback-IsLogin :
    (around : CallbackSurroundings) (crypto : Crypto) (source : EventSource)
    (secrets : SessionSecrets) (provider : Provider) (canonical : Bool) (request : Request)
    (config : AuthConfig) (db : AuthDb)
    → logs_in (callback around crypto source secrets provider canonical request (some config) db)
      ≡ true
    → (state : String) × (code : String) × (handle : String) × (binding : String)
      × (callback_parameters request ≡ some (state, code))
      × (cookie_parts (request.cookies (flow_cookie_name config)) ≡ some (handle, binding))
      × IsLogin around crypto source secrets request config provider db state code handle binding
      × ((callback around crypto source secrets provider canonical request (some config) db).1.flows
          ≡ (consume_flow
              (crypto.digest state)
              (crypto.digest handle)
              (crypto.digest binding)
              around.consume_at
              db).1.flows)
callback-IsLogin around crypto source secrets provider canonical request config db h =
    let e =
      callback-flow_login around crypto source secrets provider request config db canonical h in
    let (state, code, handle, binding, p, c, login, flows) =
      flow_login-IsLogin around crypto source secrets request config provider
        (callback_parameters request) (cookie_parts (request.cookies (flow_cookie_name config))) db
        (subst (λ result. logs_in result ≡ true) e h) in
    (state, code, handle, binding, p, c, login, ap (λ result. result.1.flows) e ∙ flows)

open_of_consumed :
    (state_hash handle_hash binding_hash : String) (now : ℕ) (db : AuthDb) (flow : FlowRow)
    → (consume_flow state_hash handle_hash binding_hash now db).0 ≡ some flow
    → any_where (open_at state_hash handle_hash binding_hash now) db.flows ≡ false
    → ⊥
unfolding consume_flow
open_of_consumed state_hash handle_hash binding_hash now db flow found closed = ground (
  arith,
  find_where-none (open_at state_hash handle_hash binding_hash now) db.flows closed,
  found,
)

consumed-closed :
    (state_hash handle_hash binding_hash : String) (now : ℕ) (db : AuthDb)
    → any_where
        (open_at state_hash handle_hash binding_hash now)
        (consume_flow state_hash handle_hash binding_hash now db).1.flows
      ≡ false
unfolding consume_flow
consumed-closed state_hash handle_hash binding_hash now db =
    any_where-cleared (open_at state_hash handle_hash binding_hash now) (consumed_flow now) db.flows
      (λ row. ground arith)

pair_of :
    (pair : Option (String × String)) (a b c d : String)
    → pair ≡ some (a, b)
    → pair ≡ some (c, d)
    → (a ≡ c) × (b ≡ d)
pair_of none a b c d h k = ground arith
pair_of (some (x, y)) a b c d h k = ground arith

same_flow :
    (crypto : Crypto) (now : ℕ) (db : AuthDb) (flow : FlowRow)
    (state state' handle handle' binding binding' : String)
    → state ≡ state'
    → handle ≡ handle'
    → binding ≡ binding'
    → (consume_flow
        (crypto.digest state')
        (crypto.digest handle')
        (crypto.digest binding')
        now
        db).0
      ≡ some flow
    → (consume_flow (crypto.digest state) (crypto.digest handle) (crypto.digest binding) now db).0
      ≡ some flow
same_flow crypto now db flow state state' handle handle' binding binding' s h b found =
    rw s (rw h (rw b found))

-- A request that has logged in does not log in again: whatever calls come between in the order of
-- their instants, as long as none of them begins a flow with the same state hash.
pub callback-logs_in_once :
    (around again : CallbackSurroundings) (crypto : Crypto) (source source' : EventSource)
    (secrets secrets' : SessionSecrets) (provider provider' : Provider)
    (canonical canonical' : Bool) (request : Request) (config : AuthConfig) (db : AuthDb)
    (state code : String) (history : List (ℕ × AuthCommand))
    → logs_in (callback around crypto source secrets provider canonical request (some config) db)
      ≡ true
    → callback_parameters request ≡ some (state, code)
    → in_order around.consume_at history again.consume_at ≡ true
    → never (issues_state (crypto.digest state)) history ≡ true
    → logs_in (
        callback again crypto source' secrets' provider' canonical' request (some config) (
          run history
            (callback around crypto source secrets provider canonical request (some config) db).1))
      ≡ false
callback-logs_in_once around again crypto source source' secrets secrets' provider provider'
      canonical canonical' request config db state code history h p o n =
    let after : AuthDb =
      (callback around crypto source secrets provider canonical request (some config) db).1 in
    let (state₁, code₁, handle, binding, p₁, c₁, login₁, flows) =
      callback-IsLogin around crypto source secrets provider canonical request config db h in
    elim (Bool-cases (
      logs_in (
        callback again crypto source' secrets' provider' canonical' request (some config)
          (run history after)))) [
            | inl success ↦
                let (state₂, code₂, handle₂, binding₂, p₂, c₂, login₂, later) =
                  callback-IsLogin again crypto source' secrets' provider' canonical' request config
                    (run history after) success in
                let found =
                  same_flow crypto again.consume_at (run history after) login₂.flow state state₂
                    handle handle₂ binding binding₂ (pair_of _ _ _ _ _ p p₂).0
                    (pair_of _ _ _ _ _ c₁ c₂).0 (pair_of _ _ _ _ _ c₁ c₂).1 login₂.consumed in
                let closed : any_where
                      (open_at (crypto.digest state) (crypto.digest handle) (crypto.digest binding)
                        around.consume_at)
                      after.flows
                    ≡ false =
                  closed_after state₁ handle binding (pair_of _ _ _ _ _ p p₁).0 flows in
                absurd (
                  open_of_consumed (crypto.digest state) (crypto.digest handle)
                    (crypto.digest binding) again.consume_at (run history after) login₂.flow found
                    (run-closed (crypto.digest state) (crypto.digest handle) (crypto.digest binding)
                      history around.consume_at again.consume_at after o n closed))
            | inr failure ↦ failure
          ]
  where
    closed_after :
        (state₁ handle binding : String)
        → state ≡ state₁
        → (callback around crypto source secrets provider canonical request
            (some config)
            db).1.flows
          ≡ (consume_flow
              (crypto.digest state₁)
              (crypto.digest handle)
              (crypto.digest binding)
              around.consume_at
              db).1.flows
        → any_where
            (open_at
              (crypto.digest state)
              (crypto.digest handle)
              (crypto.digest binding)
              around.consume_at)
            (callback around crypto source secrets provider canonical request
              (some config)
              db).1.flows
          ≡ false
    closed_after state₁ handle binding same flows = rw flows (
        rw same (
          consumed-closed (crypto.digest state₁) (crypto.digest handle) (crypto.digest binding)
            around.consume_at db))
