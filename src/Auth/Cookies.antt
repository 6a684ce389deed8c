-- ===== src/Auth/Cookies.antt =====
-- src/auth.rs, `cookie_value` and `session_cookie`: what a browser stores and sends back is found.
use caroba_guard.Prelude.{
  ℕ, ◌≡◌, refl, ap, ◌∙◌, ◌≢◌, inl, inr, Bool, Option, none, some, List, [], ◌∷◌, ◌++◌, arith,
  if◌then◌else◌, Bool-cases, get_elem?, drop, All, All-append, Bytes, codes, bytes_eq,
  bytes_eq_refl, eq_of_bytes_eq, cons_head, split, Avoids, split_once-append, split-Avoids,
  split-append, NoSpace, trim_id, to_string,
}
use caroba_guard.Auth.{
  Headers, session_cookie_name, find_cookie, cookie_value, secure_suffix, session_cookie,
}

-- A `Cookie` header as RFC 6265 has the browser write it.
abbrev pub pair : Bytes × Bytes → Bytes
pair (key, value) = key ++ b'=' ∷ value

abbrev pub cookie_header : List (Bytes × Bytes) → Bytes
cookie_header [] = []
cookie_header (p ∷ []) = pair p
cookie_header (p ∷ q ∷ rest) = pair p ++ b';' ∷ b' ' ∷ cookie_header (q ∷ rest)

abbrev pub lookup : Bytes → List (Bytes × Bytes) → Option Bytes
lookup name [] = none
lookup name ((key, value) ∷ rest) = if bytes_eq key name then some value else lookup name rest

-- No white space and no separator in a name or a value.
abbrev pub IsPair : Bytes × Bytes → Type 0
IsPair (key, value) =
    NoSpace key × NoSpace value × Avoids b';' key × Avoids b';' value × Avoids b'=' key

NoSpace-pair : (p : Bytes × Bytes) → IsPair p → NoSpace (pair p)
NoSpace-pair (key, value) (a, b, c, d, e) = All-append _ key (b'=' ∷ value) a (refl, b)

Avoids-pair : (p : Bytes × Bytes) → IsPair p → Avoids b';' (pair p)
Avoids-pair (key, value) (a, b, c, d, e) = All-append _ key (b'=' ∷ value) c (omega arith, d)

-- A blank in front of the first part changes nothing.
find_cookie-cons_head :
    (name : Bytes) (parts : List Bytes)
    → find_cookie name (cons_head b' ' parts) ≡ find_cookie name parts
unfolding find_cookie
find_cookie-cons_head name [] = refl
find_cookie-cons_head name (part ∷ parts) = refl

find_cookie-pair :
    (name : Bytes) (p : Bytes × Bytes) (parts : List Bytes)
    → IsPair p
    → find_cookie name (pair p ∷ parts)
      ≡ (if bytes_eq p.0 name then some p.1 else find_cookie name parts)
unfolding find_cookie
find_cookie-pair name (key, value) parts h = rw (
  trim_id (pair (key, value)) (NoSpace-pair (key, value) h),
  split_once-append b'=' key value h.4,
)

find_cookie-header :
    (name : Bytes) (cookies : List (Bytes × Bytes))
    → All IsPair cookies
    → find_cookie name (split b';' (cookie_header cookies)) ≡ lookup name cookies
unfolding find_cookie
find_cookie-header name [] h = refl
find_cookie-header name (p ∷ []) h =
    rw (split-Avoids b';' (pair p) (Avoids-pair p h.0)) (find_cookie-pair name p [] h.0)
find_cookie-header name (p ∷ q ∷ rest) h =
    rw (split-append b';' (pair p) (b' ' ∷ cookie_header (q ∷ rest)) (Avoids-pair p h.0)) (
      find_cookie-pair name p (split b';' (b' ' ∷ cookie_header (q ∷ rest))) h.0
      ∙ ap (λ (t : Option Bytes). if bytes_eq p.0 name then some p.1 else t)
          (find_cookie-cons_head name (split b';' (cookie_header (q ∷ rest)))
            ∙ find_cookie-header name (q ∷ rest) h.1))

-- The value of a cookie is that of the first pair of its name, wherever in the header it stands.
pub cookie_value-header :
    (headers : Headers) (name : Bytes) (cookies : List (Bytes × Bytes))
    → All IsPair cookies
    → headers "cookie" ≡ some (cookie_header cookies)
    → cookie_value headers name ≡ lookup name cookies
unfolding cookie_value
cookie_value-header headers name cookies h sent = rw sent (find_cookie-header name cookies h)

-- The part of a `Set-Cookie` header that a browser keeps: up to the first semicolon.
abbrev pub kept : Bytes → Option Bytes
kept header = get_elem? (split b';' header) 0

kept-session_cookie :
    (token : Bytes) (max_age : ℕ) (secure : Bool)
    → Avoids b';' token
    → kept (session_cookie token max_age secure) ≡ some (pair (session_cookie_name, token))
unfolding session_cookie
kept-session_cookie token max_age secure h =
    let tail : Bytes =
      drop 1 (codes "; Path=/; HttpOnly; SameSite=Strict; Max-Age=")
      ++ (to_string max_age ++ secure_suffix secure) in
    rw (split-append b';' token tail h)

session-IsPair :
    (token : Bytes) → NoSpace token → Avoids b';' token → IsPair (session_cookie_name, token)
session-IsPair token a b = (ground arith, a, ground arith, b, ground arith)

lookup-append :
    (name value : Bytes) (before after : List (Bytes × Bytes))
    → All (λ (p : Bytes × Bytes). p.0 ≢ name) before
    → lookup name (before ++ (name, value) ∷ after) ≡ some value
lookup-append name value [] after h = rw (bytes_eq_refl name)
lookup-append name value ((key, v) ∷ before) after h = elim (Bool-cases (bytes_eq key name)) [
  | inl e ↦ absurd (h.0 (eq_of_bytes_eq key name e))
  | inr e ↦ rw e (lookup-append name value before after h.1)
]

-- From the cookie of a login a browser keeps the pair of the session's name and token; sent back
-- among cookies of other names, before it, and of any names, after it, `cookie_value` finds it.
pub session_cookie-cookie_value :
    (token : Bytes) (max_age : ℕ) (secure : Bool) (before after : List (Bytes × Bytes))
    (headers : Headers)
    → All IsPair before
    → All IsPair after
    → NoSpace token
    → Avoids b';' token
    → All (λ (p : Bytes × Bytes). p.0 ≢ session_cookie_name) before
    → headers "cookie" ≡ some (cookie_header (before ++ (session_cookie_name, token) ∷ after))
    → (kept (session_cookie token max_age secure) ≡ some (pair (session_cookie_name, token)))
      × (cookie_value headers session_cookie_name ≡ some token)
session_cookie-cookie_value token max_age secure before after headers b a n s others sent = (
  kept-session_cookie token max_age secure s,
  cookie_value-header headers session_cookie_name _
        (All-append IsPair before ((session_cookie_name, token) ∷ after) b
          (session-IsPair token n s, a))
        sent
      ∙ lookup-append session_cookie_name token before after others,
)
