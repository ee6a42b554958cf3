-- ===== src/KubernetesExecutor/Manifest.antt =====
-- ai_engineering/tools/kubernetes_executor.py: `_render_manifest`, the one substitution of
-- (^\s*name:\s*)credit-model-training(\s*$) in multi-line mode.
use mathlib.Core.List.{append_assoc}
use credit_scoring_mlops.Prelude.{
  ℕ, String, ◌≡◌, refl, sym, ◌∙◌, ap, subst, Bool, true, ◌||◌, ◌&&◌, Option, none, some, List, [],
  ◌∷◌, ◌++◌, arith, ◌==◌, nat_eq, if◌then◌else◌, Option-cases, inl, inr, ◌⊎◌,
}
use credit_scoring_mlops.Prelude.Text.{codes, is_space, strip_prefix, strip_prefix-eq}
use credit_scoring_mlops.Exec.{value_error, Result, ok, err}

-- \s* takes all the white space there is: what the pattern wants next never starts with any.
skip_spaces : List ℕ → List ℕ
skip_spaces [] = []
skip_spaces (c ∷ s) = let rest = skip_spaces s in if is_space c then rest else c ∷ s

taken_spaces : List ℕ → List ℕ
taken_spaces [] = []
taken_spaces (c ∷ s) = let rest = taken_spaces s in if is_space c then c ∷ rest else []

-- \s*$ : white space up to the end of a line or of the text
unfoldable pub at_line_end : List ℕ → Bool
at_line_end [] = true
at_line_end (c ∷ s) = let rest = at_line_end s in c == 10 || (is_space c && rest)

abbrev pub name_key : List ℕ
name_key = codes "name:"

abbrev pub old_name : List ℕ
old_name = codes "credit-model-training"

-- The text behind the old name, if the pattern matches at the start of `s`, and the text before it.
behind_name : List ℕ → Option (List ℕ)
unfolding skip_spaces at_line_end
behind_name s = elim (strip_prefix name_key (skip_spaces s)) [
  | none ↦ none
  | some r ↦ elim (strip_prefix old_name (skip_spaces r)) [
    | none ↦ none
    | some rest ↦ if at_line_end rest then some rest else none
  ]
]

-- The text before it.
before_name : List ℕ → List ℕ
unfolding taken_spaces skip_spaces
before_name s =
    taken_spaces s
    ++ (name_key
        ++ elim (strip_prefix name_key (skip_spaces s)) [ none ↦ [] | some r ↦ taken_spaces r ])

-- `re.subn(.., count=1, flags=re.MULTILINE)`: the first line start at which the pattern matches. `none`
-- if there is none.
substitute : List ℕ → Bool → List ℕ → Option (List ℕ)
unfolding behind_name before_name
substitute name at_start [] = none
substitute name at_start (c ∷ s) =
    let rest = substitute name (c == 10) s in
    elim (if at_start then behind_name (c ∷ s) else none) [
      | some behind ↦ some (before_name (c ∷ s) ++ (name ++ behind))
      | none ↦ elim rest [ none ↦ none | some t ↦ some (c ∷ t) ]
    ]

-- `_render_manifest`
unfoldable pub render_manifest : String → List ℕ → Result (List ℕ)
unfolding substitute
render_manifest name manifest = elim (substitute (codes name) true manifest) [
  | none ↦ err (value_error "Training manifest must contain metadata.name=credit-model-training")
  | some rendered ↦ ok rendered
]

spaces_split : (s : List ℕ) → s ≡ taken_spaces s ++ skip_spaces s
unfolding taken_spaces skip_spaces
spaces_split [] = refl
spaces_split (c ∷ s) = ground (arith, spaces_split s)

regroup :
    (s a b k r c d o q : List ℕ)
    → s ≡ a ++ b
    → b ≡ k ++ r
    → r ≡ c ++ d
    → d ≡ o ++ q
    → s ≡ (a ++ (k ++ c)) ++ (o ++ q)
regroup s a b k r c d o q sa bk rc do_ =
    let flat : a ++ (k ++ (c ++ (o ++ q))) ≡ (a ++ (k ++ c)) ++ (o ++ q) = simp append_assoc in
    cc flat

accepted :
    (q rest : List ℕ)
    → (if at_line_end q then some q else none) ≡ some rest
    → (q ≡ rest) × (at_line_end rest ≡ true)
accepted q rest h = ground arith

before_name-key :
    (s r : List ℕ)
    → strip_prefix name_key (skip_spaces s) ≡ some r
    → before_name s ≡ taken_spaces s ++ (name_key ++ taken_spaces r)
unfolding before_name
before_name-key s r e = rw e

behind_name-found :
    (s r q : List ℕ)
    → strip_prefix name_key (skip_spaces s) ≡ some r
    → strip_prefix old_name (skip_spaces r) ≡ some q
    → behind_name s ≡ (if at_line_end q then some q else none)
unfolding behind_name
behind_name-found s r q key old = ground arith

behind_name-parts :
    (s rest : List ℕ)
    → behind_name s ≡ some rest
    → (r : List ℕ) × (q : List ℕ) × (strip_prefix name_key (skip_spaces s) ≡ some r)
      × (strip_prefix old_name (skip_spaces r) ≡ some q)
unfolding behind_name
behind_name-parts s rest h = elim (Option-cases (strip_prefix name_key (skip_spaces s))) [
  | inl no_key ↦ absurd (ground arith)
  | inr (r, key) ↦ elim (Option-cases (strip_prefix old_name (skip_spaces r))) [
    | inl no_name ↦ absurd (ground arith)
    | inr (q, old) ↦ (r, q, key, old)
  ]
]

-- What a match is: the old name between the two texts, with the end of its line behind it.
behind_name-split :
    (s rest : List ℕ)
    → behind_name s ≡ some rest
    → (s ≡ before_name s ++ (old_name ++ rest)) × (at_line_end rest ≡ true)
behind_name-split s rest h =
    let (r, q, key, old) = behind_name-parts s rest h in
    let (same, ends) = accepted q rest (sym (behind_name-found s r q key old) ∙ h) in
    let parts =
      regroup s (taken_spaces s) (skip_spaces s) name_key r (taken_spaces r) (skip_spaces r)
        old_name q (spaces_split s) (strip_prefix-eq name_key (skip_spaces s) key) (spaces_split r)
        (strip_prefix-eq old_name (skip_spaces r) old) in
    (
      rw (before_name-key s r key) (
          subst (λ t. s ≡ taken_spaces s ++ (name_key ++ taken_spaces r) ++ (old_name ++ t)) same
            parts),
      ends,
    )

-- What `substitute` gives: the text with one old name, at the end of a line, replaced.
abbrev pub Replaces : List ℕ → List ℕ → List ℕ → Type 0
Replaces name s t =
    (pre : List ℕ) × (post : List ℕ) × (s ≡ pre ++ (old_name ++ post))
    × (t ≡ pre ++ (name ++ post))
    × (at_line_end post ≡ true)

Replaces-cons :
    (name : List ℕ) (c : ℕ) (s t : List ℕ) → Replaces name s t → Replaces name (c ∷ s) (c ∷ t)
Replaces-cons name c s t (pre, post, e, f, end_) =
    (c ∷ pre, post, ap (λ r. c ∷ r) e, ap (λ r. c ∷ r) f, end_)

substitute-cases :
    (name : List ℕ) (b : Bool) (c : ℕ) (s t : List ℕ)
    → substitute name b (c ∷ s) ≡ some t
    → ((rest : List ℕ) × (behind_name (c ∷ s) ≡ some rest)
        × (t ≡ before_name (c ∷ s) ++ (name ++ rest)))
      ⊎ ((u : List ℕ) × (substitute name (c == 10) s ≡ some u) × (t ≡ c ∷ u))
unfolding substitute
substitute-cases name b c s t h = elim (Option-cases (if b then behind_name (c ∷ s) else none)) [
  | inl no_match ↦ elim (Option-cases (substitute name (c == 10) s)) [
    | inl nowhere ↦ absurd (ground arith)
    | inr (u, e) ↦ inr (u, e, ground arith)
  ]
  | inr (rest, e) ↦ inl (rest, ground arith, ground arith)
]

substitute-Replaces :
    (name : List ℕ) (b : Bool) (s t : List ℕ) → substitute name b s ≡ some t → Replaces name s t
substitute-Replaces name b [] t h = absurd (unfold substitute in ground arith)
substitute-Replaces name b (c ∷ s) t h = elim (substitute-cases name b c s t h) [
  | inl (rest, match, e) ↦
      let (split, ends) = behind_name-split (c ∷ s) rest match in
      (before_name (c ∷ s), rest, split, e, ends)
  | inr (u, e, f) ↦ rw f (Replaces-cons name c s u (substitute-Replaces name (c == 10) s u e))
]

-- A rendered manifest is the file with one `credit-model-training`, the one that ends a line, replaced by
-- the Job's name; all else is as in the file.
pub render_manifest-Replaces :
    (name : String) (manifest rendered : List ℕ)
    → render_manifest name manifest ≡ ok rendered
    → Replaces (codes name) manifest rendered
unfolding render_manifest
render_manifest-Replaces name manifest rendered h =
    elim (Option-cases (substitute (codes name) true manifest)) [
      | inl nowhere ↦ absurd (ground arith)
      | inr (t, e) ↦ substitute-Replaces (codes name) true manifest rendered (ground arith)
    ]
