-- ===== src/KubernetesExecutor/Names.antt =====
-- ai_engineering/tools/kubernetes_executor.py: `JOB_ID_RE`, `JOB_NAME_RE`, `_job_name` and
-- `_validate_job_name`. The patterns are matched as a whole (`fullmatch`).
use credit_scoring_mlops.Prelude.{
  ℕ, ◌≤◌, String, ◌<>◌, ◌≡◌, refl, Bool, true, false, not, ◌||◌, ◌&&◌, none, some, List, [], ◌∷◌,
  ◌++◌, arith, ◌==◌, nat_eq, leb, length, length-append, if◌then◌else◌, Bool-cases, inl, inr,
}
use credit_scoring_mlops.Prelude.Text.{
  codes, lower, strip, strip_prefix, codes-append, strip_prefix-append,
}
use credit_scoring_mlops.Exec.{Error, value_error, Result, ok, err}

-- [a-z0-9] and [a-z0-9-]
unfoldable pub is_alnum : ℕ → Bool
is_alnum c = (leb b'a' c && leb c b'z') || (leb b'0' c && leb c b'9')

is_body : ℕ → Bool
unfolding is_alnum
is_body c = is_alnum c || c == b'-'

-- [a-z0-9-]*[a-z0-9], or nothing
is_tail : List ℕ → Bool
unfolding is_alnum is_body
is_tail [] = true
is_tail (c ∷ []) = is_alnum c
is_tail (c ∷ d ∷ r) = is_body c && is_tail (d ∷ r)

-- JOB_ID_RE: ^[a-z0-9](?:[a-z0-9-]{0,38}[a-z0-9])?$
unfoldable pub is_job_id : List ℕ → Bool
unfolding is_alnum is_tail
is_job_id [] = false
is_job_id (c ∷ r) = is_alnum c && leb (length r) 39 && is_tail r

abbrev pub prefix : String
prefix = "credit-training-"

-- JOB_NAME_RE: the prefix, then as JOB_ID_RE
unfoldable pub is_job_name : List ℕ → Bool
unfolding is_job_id
is_job_name s = elim (strip_prefix (codes prefix) s) [ none ↦ false | some r ↦ is_job_id r ]

-- `execution_id.lower().strip()`
unfoldable pub safe_id : String → String
safe_id k = strip (lower k)

-- `_job_name`
unfoldable pub job_name : String → Result String
unfolding is_job_id safe_id
job_name k =
    if not (is_job_id (codes (safe_id k)))
    then err
        (value_error "execution_id must be a DNS-1123-safe identifier of 1-40 lowercase characters")
    else ok (prefix <> safe_id k)

-- `_validate_job_name`
unfoldable pub validate_job_name : String → Result (Unit {0})
unfolding is_job_name
validate_job_name name =
    if not (is_job_name (codes name))
    then err (value_error "job_name must refer to an ai-engineering credit-training Job")
    else ok tt

is_job_id-length : (s : List ℕ) → is_job_id s ≡ true → length s ≤ 40
unfolding is_job_id
is_job_id-length [] h = omega arith
is_job_id-length (c ∷ r) h = ground arith

length-prefix : length (codes prefix) ≡ 16
length-prefix = refl

ok_text : (s t : String) → ok s ≡ ok t → s ≡ t
ok_text s t h = cc

err_text : (e : Error) (t : String) → ◌≡◌ {A = Result String} (err e) (ok t) → ⊥
err_text e t h = cc

is_job_name-prefix : (s : List ℕ) → is_job_name (codes prefix ++ s) ≡ is_job_id s
unfolding is_job_name
is_job_name-prefix s = rw (strip_prefix-append (codes prefix) s, is_job_name)

-- A name that `_job_name` makes passes `_validate_job_name`, so the status of the Job that an execution
-- creates can be asked for; and it has at most 56 characters, within the 63 of a DNS label.
pub job_name-valid :
    (k name : String)
    → job_name k ≡ ok name
    → (validate_job_name name ≡ ok tt) × (length (codes name) ≤ 56)
unfolding job_name validate_job_name
job_name-valid k name h = elim (Bool-cases (is_job_id (codes (safe_id k)))) [
  | inl good ↦
      rw
        (
          ← ok_text _ _ (rw good at h),
          codes-append prefix (safe_id k),
          is_job_name-prefix (codes (safe_id k)),
          good,
          length-append (codes prefix) (codes (safe_id k)),
        )
        (refl, omega (arith, is_job_id-length (codes (safe_id k)) good, length-prefix))
  | inr bad ↦ absurd (err_text _ _ (rw bad at h))
]
