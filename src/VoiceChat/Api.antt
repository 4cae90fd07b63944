-- ===== src/VoiceChat/Api.antt =====
-- handleRegistration of runtime.go as a whole: which requests change the tables.
use mc_router.Prelude.{
  ℕ, ◌≡◌, ◌⊎◌, inl, inr, refl, Option, some, Bytes, Option-cases, Bool-cases, codes, ◌==◌, bytes_Eq,
}
use mc_router.Go.Text.{is_empty}
use mc_router.VoiceChat.State.{Config, Runtime}
use mc_router.VoiceChat.Handlers.{
  Method, put, post, delete, other, Request, authenticate, parse_registration_path, dispatch,
  handle_registration,
}
use mc_router.VoiceChat.Authority.{HoldsLease, handle_refresh-HoldsLease, handle_delete-HoldsLease}

-- What a request needs to change the registration of a player.
pub record IsEntitled (c : Config) (q : Request) (r : Runtime) : Type 0 where
  pub backend : Bytes
  pub authenticated : authenticate c q.authorization ≡ some backend
  pub uuid : Bytes
  pub action : Bytes
  pub named : parse_registration_path q.path ≡ some (uuid, action)
  pub may_change : (q.method ≡ put) ⊎ HoldsLease q backend uuid r

dispatch-HoldsLease :
    (method : Method) (c : Config) (now : ℕ) (lease : Option Bytes) (q : Request)
    (backend uuid action : Bytes) (r : Runtime)
    → ((dispatch method c now lease q backend uuid action r).1 ≡ r)
      ⊎ (method ≡ put)
      ⊎ HoldsLease q backend uuid r
unfolding dispatch
dispatch-HoldsLease put c now lease q backend uuid action r = inr (inl refl)
dispatch-HoldsLease post c now lease q backend uuid action r =
    elim (handle_refresh-HoldsLease c now q backend uuid r) [
      | inl same ↦ inl (elim (Bool-cases (action == codes "refresh")) [
        | inl b ↦ rw (b) same
        | inr b ↦ rw (b) refl
      ])
      | inr h ↦ inr (inr h)
    ]
dispatch-HoldsLease delete c now lease q backend uuid action r =
    elim (handle_delete-HoldsLease q backend uuid r) [
      | inl same ↦
          inl (elim (Bool-cases (is_empty action)) [ inl b ↦ rw (b) same | inr b ↦ rw (b) refl ])
      | inr h ↦ inr (inr h)
    ]
dispatch-HoldsLease other c now lease q backend uuid action r = inl refl

-- A request changes nothing, unless its token is one of a backend and its path names a player. A
-- refresh or a deletion has to name the owner and the lease of a registration that the player has with
-- that same backend.
pub handle_registration-IsEntitled :
    (c : Config) (now : ℕ) (lease : Option Bytes) (q : Request) (r : Runtime)
    → ((handle_registration c now lease q r).1 ≡ r) ⊎ IsEntitled c q r
unfolding handle_registration
handle_registration-IsEntitled c now lease q r =
    elim (Option-cases (authenticate c q.authorization)) [
      | inl e ↦ inl (rw (handle_registration, e) refl)
      | inr (backend, e) ↦ elim (Option-cases (parse_registration_path q.path)) [
        | inl p ↦ inl (rw (handle_registration, e) (rw (p) refl))
        | inr ((uuid, action), p) ↦
            elim (dispatch-HoldsLease q.method c now lease q backend uuid action r) [
              | inl same ↦ inl (rw (handle_registration, e) (rw (p) same))
              | inr h ↦ inr (record {
                backend = backend;
                authenticated = e;
                uuid = uuid;
                action = action;
                named = p;
                may_change = h;
              })
            ]
      ]
    ]
