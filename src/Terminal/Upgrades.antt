-- ===== src/Terminal/Upgrades.antt =====
-- src/terminal.rs, websocket: which connections become a session.
use caroba_guard.Prelude.{
  ℕ, zero, suc, ◌≤◌, ◌≡◌, refl, ◌↔◌, inl, inr, false, Option, arith, eq_iff, eq_refl, unwrap_or,
  Bytes,
}
use caroba_guard.Error.{
  ok, err, panicked, is_ok, then_do, >>=-eq-ok, then_do-ok, reject_if-ok, ApiResult,
}
use caroba_guard.Auth.{require, verify_csrf_token, Crypto, operator}
use caroba_guard.Terminal.{
  terminal_size, websocket_csrf_token, verify_websocket_origin, acquire, checked_upgrade, sized,
  websocket, PtySize, Uri, TerminalQuery, Upgrade,
}
use caroba_guard.Auth.Access.{require_decides, Permits}
use caroba_guard.Terminal.Protocols.{OffersToken, websocket_csrf_token-ok, websocket_csrf_token_of}
use caroba_guard.Terminal.Origins.{verify_websocket_origin-ok, origin_of, SameOrigin}

abbrev pub size_of : TerminalQuery → PtySize
size_of query = record {
  rows = unwrap_or query.rows 30;
  cols = unwrap_or query.cols 100;
  pixel_width = 0;
  pixel_height = 0;
}

abbrev pub InLimits : PtySize → Type 0
InLimits size = (2 ≤ size.cols) × (size.cols ≤ 500) × (1 ≤ size.rows) × (size.rows ≤ 200)

-- An operator or administrator on a page of the panel, with the session's token, while a permit is left.
pub record Upgraded (c : Crypto) (parse_uri : Bytes → Option Uri) (upgrade : Upgrade)
    (permits left : ℕ) (size : PtySize) : Type 0 where
  pub permitted : Permits upgrade.user.role operator
  pub same_origin : SameOrigin parse_uri upgrade.headers
  pub token : Bytes
  pub offered : OffersToken upgrade.headers token
  pub hash : c.token_hash token ≡ c.token_hash upgrade.user.csrf_token
  pub one_taken : permits ≡ suc left
  pub in_limits : InLimits size
  pub asked : size ≡ size_of upgrade.query

module _ (c : Crypto) (parse_uri : Bytes → Option Uri) (upgrade : Upgrade) where
  sized_lem :
      (permits left : ℕ) (size : PtySize) (after : ℕ)
      → sized upgrade.query permits after ≡ (ok size, left)
      → (after ≡ left) × InLimits size × (size ≡ size_of upgrade.query)
  unfolding terminal_size
  sized_lem permits left size after h = ground arith

  sized_of :
      (left : ℕ) (size : PtySize)
      → InLimits size
      → size ≡ size_of upgrade.query
      → sized upgrade.query (suc left) left ≡ (ok size, left)
  unfolding terminal_size
  sized_of left size l e = ground arith

  taken :
      (permits left : ℕ) (size : PtySize)
      → then_do (acquire permits, permits) (λ after permits. sized upgrade.query permits after)
        ≡ (ok size, left)
      → (permits ≡ suc left) × InLimits size × (size ≡ size_of upgrade.query)
  unfolding acquire
  taken zero left size h = cc
  taken (suc permits) left size h = ground (arith, sized_lem (suc permits) left size permits h)

  permitted_of : require upgrade.user.role operator ≡ ok tt → Permits upgrade.user.role operator
  permitted_of h = elim (require_decides upgrade.user.role operator) [
    | inl (p, e) ↦ p
    | inr (n, e) ↦ cc (h, e)
  ]

  require_of : Permits upgrade.user.role operator → require upgrade.user.role operator ≡ ok tt
  require_of p = elim (require_decides upgrade.user.role operator) [
    | inl (p, e) ↦ e
    | inr (n, e) ↦ absurd (n p)
  ]

  checked-ok :
      checked_upgrade c parse_uri upgrade ≡ ok tt
      → Permits upgrade.user.role operator
        × SameOrigin parse_uri upgrade.headers
        × ((token : Bytes) × OffersToken upgrade.headers token
            × (c.token_hash token ≡ c.token_hash upgrade.user.csrf_token))
  unfolding checked_upgrade verify_csrf_token
  checked-ok h =
      let (_, role, h1) = >>=-eq-ok (require upgrade.user.role operator) _ h in
      let (_, origin, h2) = >>=-eq-ok (verify_websocket_origin parse_uri upgrade.headers) _ h1 in
      let (token, offer, h3) = >>=-eq-ok (websocket_csrf_token upgrade.headers) _ h2 in
      (
        permitted_of role,
        verify_websocket_origin-ok parse_uri upgrade.headers origin,
        (
          token,
          websocket_csrf_token-ok upgrade.headers token offer,
          (eq_iff (c.token_hash token) (c.token_hash upgrade.user.csrf_token)).0
              (ground (arith, reject_if-ok _ _ h3)),
        ),
      )

  checked_of :
      (token : Bytes)
      → Permits upgrade.user.role operator
      → SameOrigin parse_uri upgrade.headers
      → OffersToken upgrade.headers token
      → c.token_hash token ≡ c.token_hash upgrade.user.csrf_token
      → checked_upgrade c parse_uri upgrade ≡ ok tt
  unfolding checked_upgrade verify_csrf_token
  checked_of token p o offer e =
      rw
        (
          require_of p,
          origin_of parse_uri upgrade.headers o,
          websocket_csrf_token_of upgrade.headers token offer,
        )
        (rw (e, eq_refl) refl)

  websocket-ok :
      (permits left : ℕ) (size : PtySize)
      → websocket c parse_uri upgrade permits ≡ (ok size, left)
      → Upgraded c parse_uri upgrade permits left size
  unfolding websocket
  websocket-ok permits left size h =
      let (_, e, h1) = then_do-ok (checked_upgrade c parse_uri upgrade, permits) _ h in
      let (permitted, same_origin, (token, offered, hash)) = checked-ok e in
      let (one_taken, in_limits, asked) = taken permits left size h1 in
      record {
        permitted = permitted;
        same_origin = same_origin;
        token = token;
        offered = offered;
        hash = hash;
        one_taken = one_taken;
        in_limits = in_limits;
        asked = asked;
      }

  websocket_of :
      (permits left : ℕ) (size : PtySize)
      → Upgraded c parse_uri upgrade permits left size
      → websocket c parse_uri upgrade permits ≡ (ok size, left)
  unfolding websocket
  websocket_of permits left size u =
      rw (checked_of u.token u.permitted u.same_origin u.offered u.hash, u.one_taken)
        (sized_of left size u.in_limits u.asked)

  -- A connection that is refused leaves the permits as they were.
  sized-keeps :
      (permits after : ℕ) {answer : ApiResult PtySize} {left : ℕ}
      → sized upgrade.query permits after ≡ (answer, left)
      → is_ok answer ≡ false
      → left ≡ permits
  unfolding terminal_size
  sized-keeps permits after e n = ground arith

  acquire-keeps :
      (permits : ℕ) {answer : ApiResult PtySize} {left : ℕ}
      → then_do (acquire permits, permits) (λ after permits. sized upgrade.query permits after)
        ≡ (answer, left)
      → is_ok answer ≡ false
      → left ≡ permits
  unfolding acquire
  acquire-keeps zero e n = ground arith
  acquire-keeps (suc permits) e n = sized-keeps (suc permits) permits e n

  after-keeps :
      (checked : ApiResult (Unit {0})) (permits : ℕ) {answer : ApiResult PtySize} {left : ℕ}
      → then_do
          (checked, permits)
          (λ _ permits.
            then_do (acquire permits, permits) (λ after permits. sized upgrade.query permits after))
        ≡ (answer, left)
      → is_ok answer ≡ false
      → left ≡ permits
  after-keeps (ok done) permits e n = acquire-keeps permits e n
  after-keeps (err why) permits e n = ground arith
  after-keeps panicked permits e n = ground arith

  pub websocket-refused :
      (permits : ℕ) {answer : ApiResult PtySize} {left : ℕ}
      → websocket c parse_uri upgrade permits ≡ (answer, left)
      → is_ok answer ≡ false
      → left ≡ permits
  unfolding websocket
  websocket-refused permits e n = after-keeps (checked_upgrade c parse_uri upgrade) permits e n

-- Exactly these connections become a session: those of an operator or administrator, from the panel's own page,
-- with the version and the session's token in the offer, while a permit is left and with a size in the limits.
pub websocket_iff :
    (c : Crypto) (parse_uri : Bytes → Option Uri) (upgrade : Upgrade) (permits left : ℕ)
    (size : PtySize)
    → (websocket c parse_uri upgrade permits ≡ (ok size, left))
      ↔ Upgraded c parse_uri upgrade permits left size
websocket_iff c parse_uri upgrade permits left size = (
  websocket-ok c parse_uri upgrade permits left size,
  websocket_of c parse_uri upgrade permits left size,
)
