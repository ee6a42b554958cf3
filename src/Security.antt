-- ===== src/Security.antt =====
-- ai_engineering/api/security.py: `APIKeyAuth.require`, the bearer-token check of every endpoint but
-- health, readiness and metrics.
use credit_scoring_mlops.Prelude.{
  String, ◌≡◌, refl, ◌≢◌, inl, inr, Bool, true, false, ◌&&◌, ltb, Option, none, some, arith,
  Option-cases, ◌↔◌, ◌==◌, string_eq, if◌then◌else◌,
}
use credit_scoring_mlops.Exec.{Error, http, type_error, Result, ok, err}
use Prim.Native.Char.{code}
use credit_scoring_mlops.Prelude.Text.{strip}
use credit_scoring_mlops.Prelude.{nat_eq}

-- What follows the prefix, if the text starts with it.
unfoldable pub after_prefix : String → String → Option String
after_prefix String.[] s = some s
after_prefix (String.◌∷◌ p ps) String.[] = none
after_prefix (String.◌∷◌ p ps) (String.◌∷◌ c s) =
    let rest = after_prefix ps s in if code p == code c then rest else none

bearer_required : Error
bearer_required = http 401 "Bearer authentication required"

invalid_token : Error
invalid_token = http 401 "Invalid authentication token"

unfoldable pub is_ascii : String → Bool
is_ascii String.[] = true
is_ascii (String.◌∷◌ c s) = ltb (code c) 128 && is_ascii s

-- `hmac.compare_digest` on texts, which takes ASCII only
unfoldable pub compare_digest : String → String → Result Bool
unfolding is_ascii
compare_digest a b =
    if is_ascii a && is_ascii b
    then ok (a == b)
    else err (type_error "comparing strings with non-ASCII characters is not supported")

-- The check of a text against the token.
check_supplied : String → String → Result (Unit {0})
unfolding compare_digest invalid_token
check_supplied expected supplied =
    if supplied == "" then err invalid_token else elim (compare_digest supplied expected) [
      | err e ↦ err e
      | ok true ↦ ok tt
      | ok false ↦ err invalid_token
    ]

-- The check against a token that is set
check_token : String → Option String → Result (Unit {0})
unfolding after_prefix bearer_required check_supplied strip
check_token expected none = err bearer_required
check_token expected (some header) = elim (after_prefix "Bearer " header) [
  | none ↦ err bearer_required
  | some rest ↦ check_supplied expected (strip rest)
]

-- `require`: the token of the environment, and the request's header. No token, or an empty one, means no
-- check.
unfoldable pub require : Option String → Option String → Result (Unit {0})
unfolding check_token
require none header = ok tt
require (some expected) header = if expected == "" then ok tt else check_token expected header

check_supplied-exact :
    (expected supplied : String)
    → expected ≢ ""
    → (check_supplied expected supplied ≡ ok tt)
      ↔ ((supplied ≡ expected) × (is_ascii expected ≡ true))
unfolding check_supplied compare_digest
check_supplied-exact expected supplied set =
    (λ h. grind (arith, h), λ (same, plain). grind (arith, same, plain, set))

-- With a token set, a request passes exactly when the token is ASCII and the header is `Bearer ` and a text
-- that is the token once white space around it is dropped.
pub require_exact :
    (expected : String) (header : Option String)
    → expected ≢ ""
    → (require (some expected) header ≡ ok tt) ↔ (
        (h : String) × (rest : String) × (header ≡ some h)
        × (after_prefix "Bearer " h ≡ some rest)
        × (strip rest ≡ expected)
        × (is_ascii expected ≡ true))
unfolding require check_token
require_exact expected none set = (λ h. absurd (ground arith), λ p. absurd (ground arith))
require_exact expected (some h) set = elim (Option-cases (after_prefix "Bearer " h)) [
  | inl no_prefix ↦ (λ e. absurd (ground arith), λ (h', rest, e, f, g, a). absurd (ground arith))
  | inr (rest, found) ↦
      let exact = check_supplied-exact expected (strip rest) set in
      (
        λ e.
            let (same, plain) = exact.0 (grind (arith, e, found, set)) in
            (h, rest, refl, found, same, plain),
        λ (h', rest', e, f, g, a).
            let passes = exact.1 (grind (arith, e, f, found, g), a) in
            grind (arith, passes, found, set),
      )
]
