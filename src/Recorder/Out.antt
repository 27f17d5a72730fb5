-- ===== src/Recorder/Out.antt =====
-- Appending to the output trace (src/engine/recorder.c).
use lotto.Base.{
  ◌≡◌, refl, ap, not, assert, ◌>>◌, Bool, true, false, List, [], ◌∷◌, ◌++◌, none, some, ◌==◌,
  Outcome, ok, Returns, Option-cases, inl, inr,
}
use lotto.TraceFlat.{Record}
use lotto.Recorder
use lotto.Recorder.{Recorder, out}

pub out-some :
    (append_ok : Record → Bool) (s : Recorder) (r : Record) (l : List Record)
    → s.output ≡ some l
    → (r.kind == Recorder.record_none) ≡ false
    → append_ok r ≡ true
    → out append_ok s r ≡ ok (record s { output = some (l ++ r ∷ []) })
unfolding out
out-some append_ok s r l opened known taken = rw (out, opened, known, taken) refl

pub out-none :
    (append_ok : Record → Bool) (s : Recorder) (r : Record)
    → s.output ≡ none
    → out append_ok s r ≡ ok s
unfolding out
out-none append_ok s r closed =
    ap
      (λ o. elim o as (λ x. Outcome Recorder) [
        | none ↦ ok s
        | some l ↦ do
          assert (not (r.kind == Recorder.record_none))
          assert (append_ok r)
          ok (record s { output = some (l ++ r ∷ []) })
      ])
      closed

-- Only the output changes.
pub out-Returns :
    (append_ok : Record → Bool) (s : Recorder) (r : Record)
    → (r.kind == Recorder.record_none) ≡ false
    → append_ok r ≡ true
    → Returns (out append_ok s r) (λ t. t.loaded ≡ s.loaded)
out-Returns append_ok s r known taken = elim (Option-cases s.output) [
  | inl closed ↦ rw (out-none append_ok s r closed) refl
  | inr (l, opened) ↦ rw (out-some append_ok s r l opened known taken) refl
]
