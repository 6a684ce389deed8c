-- ===== src/OpenCode/Modes.antt =====
-- src/opencode.rs, `ensure_mode_authorized`: who may choose which permission mode.
use caroba_guard.Prelude.{
  String, ◌≡◌, refl, sym, ◌∙◌, ◌↔◌, inl, inr, Option, none, some, str_eq, eq_iff, Bool-cases,
}
use caroba_guard.Error.{ok}
use caroba_guard.Auth.{require, Role, admin, operator, viewer, ai_agent}
use caroba_guard.Auth.Access.{require_decides, Permits}
use caroba_guard.OpenCode.{
  unrestricted_confirmation, ensure_mode_authorized, AiPermissionMode, read_only, approval,
  unrestricted,
}

pub data Authorized : Role → AiPermissionMode → Option String → Type 0 where
  to_read :
      {role : Role} {text : Option String} → Permits role operator → Authorized role read_only text
  to_ask :
      {role : Role} {text : Option String} → Permits role operator → Authorized role approval text
  to_do_all :
      {text : String} → text ≡ unrestricted_confirmation → Authorized admin unrestricted (some text)

role-Permits : (role : Role) → require role operator ≡ ok tt → Permits role operator
role-Permits role h = elim (require_decides role operator) [
  | inl p ↦ p.0
  | inr n ↦ cc (sym h ∙ n.1)
]

accepts_of : (role : Role) → Permits role operator → require role operator ≡ ok tt
accepts_of role p = elim (require_decides role operator) [ inl q ↦ q.1 | inr n ↦ absurd (n.0 p) ]

unrestricted_of :
    (role : Role) (text : Option String)
    → ensure_mode_authorized role unrestricted text ≡ ok tt
    → Authorized role unrestricted text
unfolding ensure_mode_authorized require
unrestricted_of admin (some text) h = elim (Bool-cases (str_eq text unrestricted_confirmation)) [
  | inl e ↦ to_do_all ((eq_iff text unrestricted_confirmation).0 e)
  | inr e ↦ cc (rw e at h)
]
unrestricted_of admin none h = cc h
unrestricted_of operator text h = cc h
unrestricted_of viewer text h = cc h
unrestricted_of ai_agent text h = cc h

ensure_mode_authorized-ok :
    (role : Role) (mode : AiPermissionMode) (text : Option String)
    → Authorized role mode text
    → ensure_mode_authorized role mode text ≡ ok tt
unfolding ensure_mode_authorized require
ensure_mode_authorized-ok role read_only text (to_read p) = accepts_of role p
ensure_mode_authorized-ok role approval text (to_ask p) = accepts_of role p
ensure_mode_authorized-ok admin unrestricted (some text) (to_do_all e) = rw e refl
ensure_mode_authorized-ok admin unrestricted none h = elim h [ ]
ensure_mode_authorized-ok operator unrestricted text h = elim h [ ]
ensure_mode_authorized-ok viewer unrestricted text h = elim h [ ]
ensure_mode_authorized-ok ai_agent unrestricted text h = elim h [ ]

-- A mode is accepted exactly for these: the two restricted modes for whom an operator's rights are
-- permitted, and the unrestricted one for an administrator who gives the confirmation word by word.
pub ensure_mode_authorized_iff :
    (role : Role) (mode : AiPermissionMode) (text : Option String)
    → (ensure_mode_authorized role mode text ≡ ok tt) ↔ Authorized role mode text
unfolding ensure_mode_authorized
ensure_mode_authorized_iff role read_only text =
    (λ h. to_read (role-Permits role h), ensure_mode_authorized-ok role read_only text)
ensure_mode_authorized_iff role approval text =
    (λ h. to_ask (role-Permits role h), ensure_mode_authorized-ok role approval text)
ensure_mode_authorized_iff role unrestricted text =
    (unrestricted_of role text, ensure_mode_authorized-ok role unrestricted text)
