-- ===== src/Scoring.antt =====
-- services/api/scoring.py: the score, the risk level and the decision for a default probability. Floats
-- are a parameter: a carrier, Python's `<`, the literals in percent, and `int(p * 550)`, which raises for NaN and the
-- infinities.
use credit_scoring_mlops.Prelude.{
  ℕ, ◌≤◌, String, ◌≡◌, refl, ◌⊎◌, inl, inr, Bool, true, arith, string_eq, if◌then◌else◌,
}
use credit_scoring_mlops.Exec.{Error, Result, ok, err}
use credit_scoring_mlops.Prelude.Int.{ℤ, pos, negsuc, ◌-ℤ◌, ◌≤ℤ◌, ltb_ℤ}

pub record Floats : Type 1 where
  pub Float : Type 0
  pub less : Float → Float → Bool
  pub percent : ℕ → Float
  pub scaled : ℕ → Float → Result ℤ
  -- `float(n)`, `a / b`, `round(p, 4)`, `abs(p)`
  pub of_nat : ℕ → Float
  pub divide : Float → Float → Float
  pub round4 : Float → Float
  pub magnitude : Float → Float

-- `min(a, b)` and `max(a, b)`
abbrev min_ℤ : ℤ → ℤ → ℤ
min_ℤ a b = if ltb_ℤ b a then b else a

abbrev max_ℤ : ℤ → ℤ → ℤ
max_ℤ a b = if ltb_ℤ a b then b else a

Result-cases : (r : Result ℤ) → ((n : ℤ) × (r ≡ ok n)) ⊎ ((e : Error) × (r ≡ err e))
Result-cases (ok n) = inl (n, refl)
Result-cases (err e) = inr (e, refl)

module _ (fl : Floats) where
  -- the clamp of 850 less a number
  clamped : ℤ → ℤ
  unfolding ◌-ℤ◌
  clamped n = let score = pos 850 -ℤ n in max_ℤ (pos 300) (min_ℤ (pos 850) score)

  -- `probability_to_score`; `scaled k p` is `int(p * k)`
  unfoldable pub probability_to_score : fl.Float → Result ℤ
  unfolding clamped
  probability_to_score p = elim (fl.scaled 550 p) [ err e ↦ err e | ok n ↦ ok (clamped n) ]

  -- `get_risk_level`
  unfoldable pub get_risk_level : fl.Float → String
  get_risk_level p =
      if fl.less p (fl.percent 25)
      then "low"
      else if fl.less p (fl.percent 50)
      then "medium"
      else if fl.less p (fl.percent 75)
      then "high"
      else "very_high"

  -- `get_decision`
  unfoldable pub get_decision : fl.Float → String
  get_decision p =
      if fl.less p (fl.percent 30)
      then "approved"
      else if fl.less p (fl.percent 60)
      then "manual_review"
      else "rejected"

  -- Where the score of a scaled probability comes from.
  abbrev pub Clamped : ℤ → ℤ → Type 0
  Clamped n score =
      (pos 300 ≤ℤ score)
      × (score ≤ℤ pos 850)
      × (((pos 0 ≤ℤ n) × (n ≤ℤ pos 550) × (score ≡ pos 850 -ℤ n))
          ⊎ ((ltb_ℤ n (pos 0) ≡ true) × (score ≡ pos 850))
          ⊎ ((ltb_ℤ (pos 550) n ≡ true) × (score ≡ pos 300)))

  clamped-Clamped : (n : ℤ) → Clamped n (clamped n)
  unfolding clamped ◌-ℤ◌
  clamped-Clamped (pos n) = ground arith
  clamped-Clamped (negsuc n) = ground arith

  -- The score raises exactly what `int(p * 550)` raises. Otherwise it is from 300 to 850: 850 less that number when the
  -- number is from 0 to 550, else 850 below 0 and 300 above 550.
  pub probability_to_score-Bounds :
      (p : fl.Float)
      → ((e : Error) × (fl.scaled 550 p ≡ err e) × (probability_to_score p ≡ err e))
        ⊎ ((n score : ℤ) × (fl.scaled 550 p ≡ ok n)
            × (probability_to_score p ≡ ok score)
            × Clamped n score)
  unfolding probability_to_score
  probability_to_score-Bounds p = elim (Result-cases (fl.scaled 550 p)) [
    | inl (n, h) ↦ inr (n, clamped n, h, rw (probability_to_score, h) refl, clamped-Clamped n)
    | inr (e, h) ↦ inl (e, h, rw (probability_to_score, h) refl)
  ]

  clamped-antitone : (n m : ℤ) → n ≤ℤ m → clamped m ≤ℤ clamped n
  unfolding clamped ◌-ℤ◌
  clamped-antitone n m h = ground arith

  -- A float that `int(p * 550)` maps to a larger number never has the larger score.
  pub probability_to_score-antitone :
      (p q : fl.Float) (n m a b : ℤ)
      → fl.scaled 550 p ≡ ok n
      → fl.scaled 550 q ≡ ok m
      → n ≤ℤ m
      → probability_to_score p ≡ ok a
      → probability_to_score q ≡ ok b
      → b ≤ℤ a
  unfolding probability_to_score
  probability_to_score-antitone p q n m a b hn hm h ha hb =
      grind (arith, hn, hm, ha, hb, clamped-antitone n m h)

  -- If what is below a literal is below every larger literal, then an approved application has a low or a
  -- medium risk, one for a manual review a medium or a high risk, and a rejected one a high or a very high
  -- risk; there is no other decision.
  pub decision-agrees :
      (p : fl.Float)
      → ((a b : ℕ) → a ≤ b → fl.less p (fl.percent a) ≡ true → fl.less p (fl.percent b) ≡ true)
      → ((get_decision p ≡ "approved")
          × ((get_risk_level p ≡ "low") ⊎ (get_risk_level p ≡ "medium")))
        ⊎ ((get_decision p ≡ "manual_review")
            × ((get_risk_level p ≡ "medium") ⊎ (get_risk_level p ≡ "high")))
        ⊎ ((get_decision p ≡ "rejected")
            × ((get_risk_level p ≡ "high") ⊎ (get_risk_level p ≡ "very_high")))
  unfolding get_risk_level get_decision
  decision-agrees p grows = grind (
    arith,
    grows 25 30 (omega arith),
    grows 30 50 (omega arith),
    grows 50 60 (omega arith),
    grows 60 75 (omega arith),
  )
