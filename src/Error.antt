-- ===== src/Error.antt =====
-- src/error.rs: what a handler answers when it fails; and the handler's own monad, which keeps the
-- writes made before the failure.
use caroba_guard.Prelude.{ℕ, String, ◌≡◌, refl, Bool, true, false, Option, none, some, first}

pub record ApiError : Type 0 where
  pub status : ℕ
  pub code : String
  pub message : String

pub data ApiResult {ℓ} (A : Type ℓ) : Type ℓ where
  ok : A → ApiResult A
  err : ApiError → ApiResult A
  panicked : ApiResult A  -- an `expect` that fails

abbrev new : ℕ → String → String → ApiError
new status code message = record { status = status; code = code; message = message }

abbrev pub bad_request : String → ApiError
bad_request message = new 400 "bad_request" message

abbrev pub unauthorized : String → ApiError
unauthorized message = new 401 "unauthorized" message

abbrev pub forbidden : String → ApiError
forbidden message = new 403 "forbidden" message

abbrev pub not_found : String → ApiError
not_found message = new 404 "not_found" message

abbrev pub too_many_requests : String → ApiError
too_many_requests message = new 429 "too_many_requests" message

abbrev pub service_unavailable : String → ApiError
service_unavailable message = new 503 "service_unavailable" message

-- The cause goes to the log only; the answer does not name it.
abbrev pub internal : ApiError
internal = new 500 "internal_error" "internal server error"

infixl 5 ◌>>=◌ ◌>>◌
abbrev pub ◌>>=◌ {ℓ κ} : {A : Type ℓ} {B : Type κ} → ApiResult A → (A → ApiResult B) → ApiResult B
panicked >>= next = panicked
err why >>= next = err why
ok found >>= next = next found

abbrev pub ◌>>◌ {ℓ} : {B : Type ℓ} → ApiResult (Unit {0}) → ApiResult B → ApiResult B
first >> next = first >>= λ _. next

-- `if bad { return Err(e) }`
abbrev pub reject_if : Bool → ApiError → ApiResult (Unit {0})
reject_if true e = err e
reject_if false e = ok tt

-- `ok_or_else`
abbrev pub or_fail {ℓ} : {A : Type ℓ} → Option A → ApiError → ApiResult A
or_fail none e = err e
or_fail (some a) e = ok a

-- `Option::expect`
abbrev pub expect {ℓ} : {A : Type ℓ} → Option A → ApiResult A
expect none = panicked
expect (some a) = ok a

abbrev pub is_ok {ℓ} : {A : Type ℓ} → ApiResult A → Bool
is_ok (ok a) = true
is_ok _ = false

-- A result or an error, with the state that is left in both cases.
abbrev pub then_do {ℓ κ μ} :
    {S : Type ℓ} {A : Type κ} {B : Type μ}
    → ApiResult A × S
    → (A → S → ApiResult B × S)
    → ApiResult B × S
then_do (ok a, s) f = f a s
then_do (err e, s) f = (err e, s)
then_do (panicked, s) f = (panicked, s)

-- A chain that succeeds has a first step that did.
pub >>=-eq-ok {ℓ κ} :
    {A : Type ℓ} {B : Type κ} {result : B} (first : ApiResult A) (next : A → ApiResult B)
    → (first >>= next) ≡ ok result
    → (found : A) × (first ≡ ok found) × (next found ≡ ok result)
>>=-eq-ok panicked next e = cc
>>=-eq-ok (err why) next e = cc
>>=-eq-ok (ok found) next e = (found, refl, e)

-- The same for a chain that carries a state.
pub then_do-ok {ℓ κ μ} :
    {S : Type ℓ} {A : Type κ} {B : Type μ} {result : B} {left : S} (first : ApiResult A × S)
    (next : A → S → ApiResult B × S)
    → then_do first next ≡ (ok result, left)
    → (found : A) × (first.0 ≡ ok found) × (next found first.1 ≡ (ok result, left))
then_do-ok (panicked, s) next e = cc e
then_do-ok (err why, s) next e = cc e
then_do-ok (ok found, s) next e = (found, refl, e)

pub or_fail-ok {ℓ} :
    {A : Type ℓ} (o : Option A) (e : ApiError) {a : A} → or_fail o e ≡ ok a → o ≡ some a
or_fail-ok none e h = cc
or_fail-ok (some a) e h = cc

pub reject_if-ok : (b : Bool) (e : ApiError) {u : Unit {0}} → reject_if b e ≡ ok u → b ≡ false
reject_if-ok true e h = cc
reject_if-ok false e h = refl
