-- ===== src/Recorder/Ends.antt =====
-- The end of a recording (src/engine/recorder.c).
use lotto.Base.{
  ℕ, ◌≡◌, refl, Bool, true, false, List, [], ◌∷◌, ◌++◌, some, if◌then◌else◌, fault, assert_failed,
  Returns,
}
use lotto.Reason.{Reason, is_record_final}
use lotto.TraceFlat.{Record}
use lotto.Recorder.Out.{out-some}
use lotto.Recorder.{Recorder, Capture, recorder_fini, recorder_record, recorder_replay, exit_record}

-- Every later call of the recorder aborts.
abbrev pub IsClosed : (Record → Bool) → Recorder → Type 0
IsClosed append_ok s =
    ((cp : Capture) (clk : ℕ) (bytes : List ℕ)
      → recorder_record append_ok cp clk bytes s ≡ fault assert_failed)
    × ((clk : ℕ) → recorder_replay append_ok clk s ≡ fault assert_failed)
    × ((clk id : ℕ) (reason : Reason) (value : ℕ) (final_state empty_state : List ℕ)
        → recorder_fini append_ok clk id reason value final_state empty_state s
          ≡ fault assert_failed)

finito-IsClosed :
    (append_ok : Record → Bool) (s : Recorder) → s.finito ≡ true → IsClosed append_ok s
unfolding recorder_record recorder_replay recorder_fini
finito-IsClosed append_ok s ended =
    (λ cp clk bytes. rw ended refl, λ clk. rw ended refl, λ clk id reason value f e. rw ended refl)

-- On a recorder that has not been finished, with an output trace to which appending succeeds and a
-- final record, `recorder_fini` returns and appends one EXIT record, with the final state if the
-- reason asks for it and the empty one if not; after that every call to record, to replay or to
-- finish fails an assertion.
pub recorder_fini-Returns :
    (append_ok : Record → Bool) (s : Recorder) (l : List Record) (clk id : ℕ) (reason : Reason)
    (value : ℕ) (final_state empty_state : List ℕ)
    → ((r : Record) → append_ok r ≡ true)
    → s.finito ≡ false
    → s.has_final ≡ true
    → s.output ≡ some l
    → Returns (recorder_fini append_ok clk id reason value final_state empty_state s) (λ t.
      IsClosed append_ok t
      × (t.output
          ≡ some (
              l
              ++ exit_record clk id value
                  (if is_record_final reason then final_state else empty_state)
                ∷ [])))
unfolding recorder_fini
recorder_fini-Returns append_ok s l clk id reason value f e accepts alive allocated opened =
    let r = exit_record clk id value (if is_record_final reason then f else e) in
    let taken = accepts r in
    let ended : Recorder = record s { finito = true } in
    rw (alive, opened, allocated, out-some append_ok ended r l opened refl taken)
      (finito-IsClosed append_ok (record ended { output = some (l ++ r ∷ []) }) refl, refl)
