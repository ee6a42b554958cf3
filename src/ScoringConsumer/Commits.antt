-- ===== src/ScoringConsumer/Commits.antt =====
-- services/kafka_consumer/scoring_consumer.py: which offsets are committed.
use credit_scoring_mlops.Prelude.{
  ℕ, ◌+◌, ◌≤◌, ◌≡◌, ◌⊎◌, List, [], ◌∷◌, ◌++◌, arith, length, length-append,
}
use credit_scoring_mlops.Scoring.{Floats}
use credit_scoring_mlops.ScoringConsumer.{
  State, Services, Message, Polled, no_message, partition_eof, poll_error, received_message,
  as_dict, save_log, score_application, produce, commit, score_message, handle_failure,
  process_message, poll_once, poll_all,
}

module _ (fl : Floats) (s : Services fl) where
  -- What an action may do to the commits: it leaves them, or it commits one offset and either one more
  -- result was handed to the producer or one more message was found invalid.
  abbrev pub Commits : ℕ → State fl → State fl → Type 0
  Commits o st st' =
      ((st'.committed ≡ st.committed)
        × (length st.produced ≤ length st'.produced)
        × (st.invalid ≤ st'.invalid))
      ⊎ ((st'.committed ≡ st.committed ++ o ∷ [])
          × (length st.produced + st.invalid + 1 ≤ length st'.produced + st'.invalid))

  -- Whatever the services answer, `process_message` commits nothing but the offset of its message, and it
  -- commits it only after it handed a result to the producer or counted the message as invalid.
  pub process_message-Commits :
      (m : Message fl) (st : State fl) → Commits m.offset st (process_message fl s m st).1
  unfolding process_message score_message handle_failure score_application save_log produce commit
      as_dict
  process_message-Commits m st = grind (arith, length-append)

  poll_once-bound :
      (p : Polled fl) (st : State fl)
      → let st' = (poll_once fl s p st).1 in
        length st'.committed + length st.produced + st.invalid
        ≤ length st.committed + length st'.produced + st'.invalid
  unfolding poll_once
  poll_once-bound no_message st = omega arith
  poll_once-bound partition_eof st = omega arith
  poll_once-bound poll_error st = omega arith
  poll_once-bound (received_message m) st =
      grind (arith, process_message-Commits m st, length-append)

  -- Whatever the services answer and whatever is polled, the commits never get ahead of the results and
  -- the invalid messages: their number grows at most by what both of these grow.
  pub poll_all-bound :
      (ps : List (Polled fl)) (st : State fl)
      → let st' = (poll_all fl s ps st).1 in
        length st'.committed + length st.produced + st.invalid
        ≤ length st.committed + length st'.produced + st'.invalid
  unfolding poll_all
  poll_all-bound [] st = omega arith
  poll_all-bound (p ∷ ps) st = grind (arith, poll_once-bound p st, poll_all-bound ps)
