-- ===== src/Admin/Routes/Logout.antt =====
-- What `logout` leaves of the session of its cookie.
use x_bray.Base.{
  ◌∙◌, ℕ, String, true, false, Option, none, some, List, ◌≡◌, refl, sym, subst, arith, any_where,
  any_where-cleared, any_where_mono,
}
use x_bray.Admin.Tables.{AuthDb}
use x_bray.Admin.Sessions.{
  EventSource, get_session, revoke_session, record_event, is_valid, is_unrevoked, revoked_session,
  insert_event,
}
use x_bray.Admin.Commands.{AuthCommand, run, never, in_order, issues_token}
use x_bray.Admin.Commands.Revival.{run-is_unrevoked, none_of_invalid}
use x_bray.Admin.Routes.Guards.{require_admin-admits}
use x_bray.Admin.Routes.Session.{logout, logout_admitted, logout_access, logout_revoked}
use x_bray.Admin.Routes.{
  AuthConfig, Crypto, session_cookie_name, Request, done, Material, Surroundings, Access,
  unavailable, denied, admitted, require_admin,
}

-- Every session with the token is revoked.
abbrev pub IsEnded : String → AuthDb → Type 0
IsEnded token_hash db = any_where (is_unrevoked token_hash) db.sessions ≡ false

revoked-IsEnded :
    (token_hash : String) (at : ℕ) (db : AuthDb)
    → IsEnded token_hash (revoke_session token_hash at db).1
unfolding revoke_session
revoked-IsEnded token_hash at db =
    any_where-cleared (is_unrevoked token_hash) (revoked_session at) db.sessions
      (λ row. ground arith)

logout_revoked-IsEnded :
    (around : Surroundings) (source : EventSource) (config : AuthConfig) (material : Material)
    (token_hash : String) (db : AuthDb)
    → IsEnded token_hash db
    → IsEnded token_hash (logout_revoked around source config material db).1
unfolding record_event insert_event
logout_revoked-IsEnded around source config material token_hash db ended = ground (arith, ended)

logout_access-IsEnded :
    (around : Surroundings) (crypto : Crypto) (source : EventSource) (request : Request)
    (config : AuthConfig) (material : Material) (db : AuthDb)
    → (logout_admitted around crypto source request config material db).0.body ≡ done
    → IsEnded
        (crypto.session_hash material.raw)
        (logout_admitted around crypto source request config material db).1
logout_access-IsEnded around crypto source request config material db h = ground (
  arith,
  logout_revoked-IsEnded around source config material (crypto.session_hash material.raw)
      (revoke_session (crypto.session_hash material.raw) around.write_at db).1
      (revoked-IsEnded (crypto.session_hash material.raw) around.write_at db),
)

some_injective : {A : Type 0} (a b : A) → some a ≡ some b → a ≡ b
some_injective a b h = ground arith

same_cookie :
    (request : Request) (used config : AuthConfig) (loaded : Option AuthConfig) (one other : String)
    → loaded ≡ some used
    → loaded ≡ some config
    → request.cookies (session_cookie_name used) ≡ some one
    → request.cookies (session_cookie_name config) ≡ some other
    → one ≡ other
same_cookie request used config loaded one other u l c d =
    let same : used ≡ config = some_injective used config (sym u ∙ l) in
    some_injective one other
      (sym (subst (λ k. request.cookies (session_cookie_name k) ≡ some one) same c) ∙ d)

logged_out_of_access :
    (around : Surroundings) (crypto : Crypto) (source : EventSource) (request : Request)
    (db : AuthDb) (loaded : Option AuthConfig) (config : AuthConfig) (raw : String)
    (result : Access × AuthDb)
    → loaded ≡ some config
    → request.cookies (session_cookie_name config) ≡ some raw
    → require_admin around crypto loaded request db ≡ result
    → (logout_access around crypto source request result).0.body ≡ done
    → IsEnded (crypto.session_hash raw) (logout_access around crypto source request result).1
logged_out_of_access around crypto source request db loaded config raw (unavailable, after) l c e
      h =
    ground arith
logged_out_of_access around crypto source request db loaded config raw
      (denied used status code, after) l c e h =
    ground arith
logged_out_of_access around crypto source request db loaded config raw
      (admitted used material, after) l c e h =
    let shown = (require_admin-admits around crypto loaded request db after used material e).0 in
    let same : material.raw ≡ raw =
      same_cookie request used config loaded material.raw raw shown.configured l shown.cookie c in
    subst
      (λ token.
        IsEnded (crypto.session_hash token)
          (logout_admitted around crypto source request used material after).1)
      same (logout_access-IsEnded around crypto source request used material after h)

-- Once `logout` has answered that it is done, the session of the request's cookie is found at no
-- instant, whatever calls follow, as long as none of them inserts a session with the same token hash.
pub logout-ends_session :
    (around : Surroundings) (crypto : Crypto) (source : EventSource) (request : Request)
    (db : AuthDb) (config : AuthConfig) (raw : String) (history : List (ℕ × AuthCommand)) (end : ℕ)
    → request.cookies (session_cookie_name config) ≡ some raw
    → (logout around crypto source (some config) request db).0.body ≡ done
    → in_order 0 history end ≡ true
    → never (issues_token (crypto.session_hash raw)) history ≡ true
    → get_session
        (crypto.session_hash raw)
        end
        (run history (logout around crypto source (some config) request db).1)
      ≡ none
unfolding logout
logout-ends_session around crypto source request db config raw history end c h o n =
    let access = require_admin around crypto (some config) request db in
    let after : AuthDb = (logout_access around crypto source request access).1 in
    none_of_invalid (crypto.session_hash raw) end (run history after) (
      any_where_mono (is_valid (crypto.session_hash raw) end)
        (is_unrevoked (crypto.session_hash raw)) (run history after).sessions
        (λ row valid. ground (arith, valid))
        (run-is_unrevoked (crypto.session_hash raw) history after n (
          logged_out_of_access around crypto source request db (some config) config raw access refl
            c refl h)))
