-- ===== src/Terminal/Protocols.antt =====
-- src/terminal.rs, websocket_csrf_token: which offers of protocols it accepts.
use caroba_guard.Prelude.{
  ◌≡◌, refl, ◌∙◌, ◌↔◌, inl, inr, Bool, true, false, not, ◌||◌, Option, none, some, List, [], ◌∷◌,
  ◌++◌, arith, if◌then◌else◌, Bool-cases, Option-cases, is_some, any, Bytes, codes, bytes_eq,
  eq_of_bytes_eq, trim, strip_prefix, split,
}
use caroba_guard.Error.{ok, err, forbidden, ◌>>=◌, ◌>>◌, reject_if, or_fail, ApiResult}
use caroba_guard.Terminal.{is_empty, note_protocol, scan_protocols, websocket_csrf_token, Offer}
use caroba_guard.Auth.{Headers}

abbrev pub token_of : Option Bytes → List Bytes
token_of none = []
token_of (some token) = token ∷ []

-- The tokens that an offer carries, in order.
abbrev pub csrf_tokens : List Bytes → List Bytes
csrf_tokens [] = []
csrf_tokens (part ∷ parts) =
    token_of (strip_prefix (codes "csrf.") (trim part)) ++ csrf_tokens parts

abbrev pub offers_version : List Bytes → Bool
offers_version parts = any (λ part. bytes_eq (trim part) (codes "carobaguard-v1")) parts

abbrev fits : Option Bytes → List Bytes → Bool
fits c [] = true
fits none (token ∷ []) = not (is_empty token)
fits none (token ∷ _ ∷ _) = false
fits (some _) (_ ∷ _) = false

abbrev joined : Option Bytes → List Bytes → Option Bytes
joined c [] = c
joined c (token ∷ _) = some token

abbrev verdict : Bool → Option Bytes → List Bytes → ApiResult Offer
verdict versioned c tokens =
    if fits c tokens
    then ok (record { has_version = versioned; csrf = joined c tokens })
    else err (forbidden "invalid terminal protocol")

verdict-cons :
    (c : Option Bytes) (versioned : Bool) (token : Bytes) (tokens : List Bytes)
    → verdict versioned c (token ∷ tokens) ≡ (
        if is_empty token || is_some c
        then err (forbidden "invalid terminal protocol")
        else verdict versioned (some token) tokens)
verdict-cons none versioned [] [] = refl
verdict-cons none versioned [] (t ∷ ts) = refl
verdict-cons none versioned (b ∷ bs) [] = refl
verdict-cons none versioned (b ∷ bs) (t ∷ ts) = refl
verdict-cons (some c) versioned [] tokens = refl
verdict-cons (some c) versioned (b ∷ bs) tokens = refl

version_has_no_token :
    (part : Bytes)
    → bytes_eq (trim part) (codes "carobaguard-v1") ≡ true
    → strip_prefix (codes "csrf.") (trim part) ≡ none
version_has_no_token part h = rw (eq_of_bytes_eq (trim part) (codes "carobaguard-v1") h) refl

scan_protocols-eq :
    (parts : List Bytes) (v : Bool) (c : Option Bytes)
    → scan_protocols parts (record { has_version = v; csrf = c })
      ≡ verdict (v || offers_version parts) c (csrf_tokens parts)
unfolding scan_protocols note_protocol
scan_protocols-eq [] v c = ground arith
scan_protocols-eq (part ∷ parts) v c =
    elim (Bool-cases (bytes_eq (trim part) (codes "carobaguard-v1"))) [
      | inl e ↦
          rw (version_has_no_token part e) (rw e (scan_protocols-eq parts true c ∙ ground arith))
      | inr n ↦ rw n (elim (Option-cases (strip_prefix (codes "csrf.") (trim part))) [
        | inl e ↦ rw e (scan_protocols-eq parts v c)
        | inr (token, e) ↦
            rw (e, verdict-cons) (ground (arith, scan_protocols-eq parts v (some token)))
      ])
    ]

abbrev csrf_token_of : Offer → ApiResult Bytes
csrf_token_of offer = do
  reject_if (not offer.has_version) (forbidden "invalid terminal protocol")
  or_fail offer.csrf (forbidden "missing CSRF token")

abbrev OneToken : Bool → List Bytes → Bytes → Type 0
OneToken v tokens token = (v ≡ true) × (tokens ≡ token ∷ []) × (is_empty token ≡ false)

verdict-ok :
    (v : Bool) (tokens : List Bytes) {token : Bytes}
    → (verdict v none tokens >>= csrf_token_of) ≡ ok token
    → OneToken v tokens token
verdict-ok true [] h = cc
verdict-ok false [] h = cc
verdict-ok true ([] ∷ []) h = cc
verdict-ok false ([] ∷ []) h = cc
verdict-ok true ((b ∷ bs) ∷ []) {token} h = ground arith
verdict-ok false ((b ∷ bs) ∷ []) h = cc
verdict-ok v (_ ∷ _ ∷ _) h = cc

verdict_of :
    (v : Bool) (tokens : List Bytes) (token : Bytes)
    → OneToken v tokens token
    → (verdict v none tokens >>= csrf_token_of) ≡ ok token
verdict_of v tokens token (hv, ht, he) = rw (hv, ht, he) refl

-- What an offer of protocols must be: it names the version, and exactly one of its parts is a
-- `csrf.` protocol, whose token is not empty.
abbrev pub OffersToken : Headers → Bytes → Type 0
OffersToken headers token =
    (protocols : Bytes) × (headers "sec-websocket-protocol" ≡ some protocols)
    × (offers_version (split b',' protocols) ≡ true)
    × (csrf_tokens (split b',' protocols) ≡ token ∷ [])
    × (is_empty token ≡ false)

pub websocket_csrf_token-ok :
    (headers : Headers) (token : Bytes)
    → websocket_csrf_token headers ≡ ok token
    → OffersToken headers token
unfolding websocket_csrf_token
websocket_csrf_token-ok headers token h = elim (Option-cases (headers "sec-websocket-protocol")) [
  | inl e ↦ absurd (cc (rw e at h))
  | inr (protocols, e) ↦
      let parts = split b',' protocols in
      let one =
        verdict-ok (offers_version parts) (csrf_tokens parts) (rw (e, scan_protocols-eq) at h) in
      (protocols, e, one.0, one.1, one.2)
]

pub websocket_csrf_token_of :
    (headers : Headers) (token : Bytes)
    → OffersToken headers token
    → websocket_csrf_token headers ≡ ok token
unfolding websocket_csrf_token
websocket_csrf_token_of headers token (protocols, e, v, s, n) =
    let parts = split b',' protocols in
    rw (e, scan_protocols-eq)
      (verdict_of (offers_version parts) (csrf_tokens parts) token (v, s, n))

-- Exactly these offers of protocols give a token: those that name the version and have one `csrf.`
-- protocol, whose token is not empty and is the one that is given.
pub websocket_csrf_token_iff :
    (headers : Headers) (token : Bytes)
    → (websocket_csrf_token headers ≡ ok token) ↔ OffersToken headers token
websocket_csrf_token_iff headers token =
    (websocket_csrf_token-ok headers token, websocket_csrf_token_of headers token)
