-- ===== src/ScoringApi/Logs.antt =====
-- services/api/main.py: what a request may do to the scoring log and the counters.
use credit_scoring_mlops.Prelude.{ℕ, suc, ◌≡◌, ◌⊎◌, inl, inr, refl, List, [], ◌∷◌, ◌++◌}
use credit_scoring_mlops.Exec.{Error, Result, ok, err, Exec, lift, ◌>>=◌}
use credit_scoring_mlops.Prelude.Int.{ℤ}
use credit_scoring_mlops.Scoring.{Floats, probability_to_score, get_risk_level, get_decision}
use credit_scoring_mlops.CreditApplication.{CreditApplication}
use credit_scoring_mlops.ScoringLog.{ScoringLog, save_scoring_log, log_row}
use credit_scoring_mlops.ScoringApi.{
  Services, State, ScoringResponse, score_application, score, response, save_log, record_score,
  record_scored, count_success, Contribution,
}

module _ (fl : Floats) (api : Services fl) where
  abbrev row_of : CreditApplication fl → fl.Float → ℤ → ℕ → ScoringLog fl
  row_of application p score now =
      log_row fl application p score (get_risk_level fl p) (get_decision fl p) api.model.name now

  abbrev logged :
      CreditApplication fl → List (ScoringLog fl) → fl.Float → ℤ → ℕ → List (ScoringLog fl)
  logged application rows p score now = rows ++ row_of application p score now ∷ []

  -- How saving may end: no row, an added row and an exception, or an added row.
  data Saves (application : CreditApplication fl) (p : fl.Float) (score : ℤ)
      (rows : List (ScoringLog fl)) : Result (Unit {0}) × List (ScoringLog fl) → Type 0 where
    uncommitted : (e : Error) → Saves application p score rows (err e, rows)
    committed :
        (r : Result (Unit {0})) (now : ℕ)
        → Saves application p score rows (r, logged application rows p score now)

  save-Saves :
      (application : CreditApplication fl) (p : fl.Float) (score : ℤ) (rows : List (ScoringLog fl))
      → Saves application p score rows (
          save_scoring_log fl api.db application p score
            (get_risk_level fl p)
            (get_decision fl p)
            api.model.name
            rows)
  unfolding save_scoring_log
  save-Saves application p score rows =
      go (api.db.commit rows (row_of application p score (api.db.utcnow rows)))
    where
      go :
          (r : Result (Unit {0}))
          → Saves application p score rows (elim r [
            | ok done ↦ (
              api.db.refresh (row_of application p score (api.db.utcnow rows)),
              logged application rows p score (api.db.utcnow rows),
            )
            | err e ↦ (err e, rows)
          ])
      go (ok done) = committed _ _
      go (err e) = uncommitted e

  -- How scoring may end: no row was added and an exception was raised; a row was added and an exception
  -- was raised; or a row was added and the response tells what the row holds.
  data Ends (application : CreditApplication fl) (st : State fl)
      : Result (ScoringResponse fl) × State fl → Type 0 where
    unsaved : (e : Error) → Ends application st (err e, st)
    saved :
        (e : Error) (p : fl.Float) (score : ℤ) (now : ℕ)
        → Ends application st (err e, record st { logs = logged application st.logs p score now })
    answered :
        (p : fl.Float) (score : ℤ) (now : ℕ) (contributions : List (Contribution fl))
        (st' : State fl)
        → st'.logs ≡ logged application st.logs p score now
        → st'.requests ≡ st.requests
        → st'.errors ≡ st.errors
        → Ends application st (ok (response fl api p score contributions), st')

  record_scored-Ends :
      (application : CreditApplication fl) (p : fl.Float) (cs : List (Contribution fl)) (score : ℤ)
      (st : State fl)
      → Ends application st (record_scored fl api application p cs score st)
  unfolding record_scored save_log count_success
  record_scored-Ends application p cs score st = go _ (save-Saves application p score st.logs)
    where
      go :
          (o : Result (Unit {0}) × List (ScoringLog fl))
          → Saves application p score st.logs o
          → Ends application st (elim o.0 [
            | ok done ↦ (
              ok (response fl api p score cs),
              (count_success fl api p score (record st { logs = o.1 })).1,
            )
            | err e ↦ (err e, record st { logs = o.1 })
          ])
      go _ (uncommitted e) = unsaved e
      go _ (committed (ok done) now) = answered p score now cs _ refl refl refl
      go _ (committed (err e) now) = saved e p score now

  lifted-Ends :
      {A : Type 0} (application : CreditApplication fl) (st : State fl) (r : Result A)
      (f : A → Exec (State fl) (ScoringResponse fl))
      → ((a : A) → Ends application st (f a st))
      → Ends application st ((lift r >>= f) st)
  lifted-Ends application st (ok a) f k = k a
  lifted-Ends application st (err e) f k = unsaved e

  record_score-Ends :
      (application : CreditApplication fl) (p : fl.Float) (cs : List (Contribution fl))
      (st : State fl)
      → Ends application st (record_score fl api application p cs st)
  unfolding record_score
  record_score-Ends application p cs st =
      lifted-Ends application st (probability_to_score fl p) (record_scored fl api application p cs)
        (λ score. record_scored-Ends application p cs score st)

  score-Ends :
      (application : CreditApplication fl) (st : State fl)
      → Ends application st (score fl api application st)
  unfolding score
  score-Ends application st = search (lifted-Ends, record_score-Ends) depth 9

  abbrev caught : Result (ScoringResponse fl) × State fl → Result (ScoringResponse fl) × State fl
  caught o = elim o.0 [
    | ok a ↦ (ok a, o.1)
    | err e ↦ (err e, record o.1 { errors = suc o.1.errors })
  ]

  -- How a request may end, with the result and the state after it.
  abbrev pub Answers :
      CreditApplication fl → State fl → Result (ScoringResponse fl) → State fl → Type 0
  Answers application st r st' =
      ((e : Error) × (r ≡ err e) × (st'.errors ≡ suc st.errors) × (st'.logs ≡ st.logs))
      ⊎ ((row : ScoringLog fl) × (st'.logs ≡ st.logs ++ row ∷ [])
          × (((e : Error) × (r ≡ err e) × (st'.errors ≡ suc st.errors))
              ⊎ ((answer : ScoringResponse fl) × (r ≡ ok answer)
                  × (st'.errors ≡ st.errors)
                  × (row.score ≡ answer.score)
                  × (row.decision ≡ answer.decision))))

  -- However a request ends, it counts once, and at most one row is added to the scoring log: with no row added, an
  -- exception is raised and counted as an error; with a row added, either an exception is raised and counted, or the response
  -- has the row's score and decision and no error is counted.
  pub score_application-Answers :
      (application : CreditApplication fl) (st : State fl)
      → let (r, st') = score_application fl api application st in
        (st'.requests ≡ suc st.requests) × Answers application st r st'
  unfolding score_application response log_row
  score_application-Answers application st =
      let counted = record st { requests = suc st.requests } in
      go _ (score-Ends application counted)
    where
      go :
          (o : Result (ScoringResponse fl) × State fl)
          → Ends application (record st { requests = suc st.requests }) o
          → let (r, st') = caught o in
            (st'.requests ≡ suc st.requests) × Answers application st r st'
      go _ (unsaved e) = (refl, inl (e, refl, refl, refl))
      go _ (saved e p score now) = (refl, inr (_, refl, inl (e, refl, refl)))
      go _ (answered p score now cs st' l q e) = (q, inr (_, l, inr (_, refl, e, refl, refl)))
