-- ===== src/Auth/Access.antt =====
-- src/auth.rs, `Role::require` and the CSRF check.
use caroba_guard.Prelude.{◌≡◌, refl, ◌↔◌, ◌⊎◌, inl, inr, some, arith, eq_iff, Option-cases, Bytes}
use caroba_guard.Error.{ApiResult, ok, err, forbidden}
use caroba_guard.Auth.{
  Role, admin, operator, viewer, ai_agent, AuthUser, Crypto, Headers, require, verify_csrf,
}

-- The hierarchy, written out: the agent may do nothing through the panel's own handlers.
pub data Permits : Role → Role → Type 0 where
  all_to_admin : (required : Role) → Permits admin required
  own_to_operator : Permits operator operator
  less_to_operator : Permits operator viewer
  agent_to_operator : Permits operator ai_agent
  own_to_viewer : Permits viewer viewer
  agent_to_viewer : Permits viewer ai_agent

abbrev refusal : ApiResult (Unit {0})
refusal = err (forbidden "this role cannot perform the operation")

accepted_of : {self required : Role} → Permits self required → require self required ≡ ok tt
unfolding require
accepted_of (all_to_admin admin) = refl
accepted_of (all_to_admin operator) = refl
accepted_of (all_to_admin viewer) = refl
accepted_of (all_to_admin ai_agent) = refl
accepted_of own_to_operator = refl
accepted_of less_to_operator = refl
accepted_of agent_to_operator = refl
accepted_of own_to_viewer = refl
accepted_of agent_to_viewer = refl

refused_of : (self required : Role) → Permits self required ⊎ (require self required ≡ refusal)
unfolding require
refused_of admin r = inl (all_to_admin r)
refused_of operator admin = inr refl
refused_of operator operator = inl own_to_operator
refused_of operator viewer = inl less_to_operator
refused_of operator ai_agent = inl agent_to_operator
refused_of viewer admin = inr refl
refused_of viewer operator = inr refl
refused_of viewer viewer = inl own_to_viewer
refused_of viewer ai_agent = inl agent_to_viewer
refused_of ai_agent admin = inr refl
refused_of ai_agent _ = inr refl

-- `require` accepts exactly the pairs of the role hierarchy, and answers 403 on every other pair.
pub require_decides :
    (self required : Role)
    → (Permits self required × (require self required ≡ ok tt))
      ⊎ ((¬ Permits self required) × (require self required ≡ refusal))
require_decides self required = elim (refused_of self required) [
  | inl p ↦ inl (p, accepted_of p)
  | inr e ↦ inr ((λ p. cc (accepted_of p)), e)
]

-- A request passes the CSRF check exactly if its header holds a text with the hash of the token
-- that the session was given.
pub verify_csrf_iff :
    (c : Crypto) (user : AuthUser) (headers : Headers)
    → (verify_csrf c user headers ≡ ok tt) ↔ (
        (supplied : Bytes) × (headers "x-csrf-token" ≡ some supplied)
        × (c.token_hash supplied ≡ c.token_hash user.csrf_token))
unfolding verify_csrf
verify_csrf_iff c user headers = (to, from)
  where
    to :
        verify_csrf c user headers ≡ ok tt
        → (supplied : Bytes) × (headers "x-csrf-token" ≡ some supplied)
          × (c.token_hash supplied ≡ c.token_hash user.csrf_token)
    to h = elim (Option-cases (headers "x-csrf-token")) [
      | inl e ↦ absurd (ground arith)
      | inr (s, e) ↦ (s, e, ground (arith, eq_iff (c.token_hash s) (c.token_hash user.csrf_token)))
    ]

    from :
        (supplied : Bytes) × (headers "x-csrf-token" ≡ some supplied)
          × (c.token_hash supplied ≡ c.token_hash user.csrf_token)
        → verify_csrf c user headers ≡ ok tt
    from (s, e, h) = ground (arith, eq_iff (c.token_hash s) (c.token_hash user.csrf_token))
