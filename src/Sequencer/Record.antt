-- ===== src/Sequencer/Record.antt =====
-- When the sequencer records: by granularity at a capture (`_granularity_should_record`), and by
-- deviation when a task resumes (`sequencer_resume`), in src/engine/sequencer.c.
use Prim.Native.Nat.{bit_and}
use lotto.Base.{
  ℕ, zero, suc, ◌*◌, ◌<◌, ◌%◌, ◌≡◌, refl, Bool, true, false, not, ◌&&◌, ◌||◌, ltb, leb, ◌==◌,
  if◌then◌else◌, Outcome, ok, fault, assert_failed, out_of_fuel, ◌>>=◌, arith, inl, inr, Bool-cases,
  ◌∙◌,
}
use lotto.Sequencer.{CapturePoint, Decision, Sequencer, Config, update_unblocked, event_task_create}

-- include/lotto/base/record_granularity.h
abbrev pub granularity_switch : ℕ
granularity_switch = 1

abbrev pub granularity_chpt : ℕ
granularity_chpt = 2

abbrev pub granularity_capture : ℕ
granularity_capture = 4

-- src/base/record_granularity.c
unfoldable pub granularities_have : ℕ → ℕ → Bool
granularities_have granularities granularity =
    (granularity == 0) || not (bit_and granularities granularity == 0)

-- The body of the loop at the bit `i`, one that is set.
unfoldable pub records_at : CapturePoint → Decision → ℕ → ℕ → Outcome Bool
records_at cp e next i =
    if i == granularity_switch
    then ok (not (next == cp.id))
    else (if i == granularity_chpt
        then ok e.is_chpt
        else (if i == granularity_capture then ok true else fault assert_failed))

-- The loop, with `i` a `uint32_t`: past 32 rounds `i` is 0, whose round ends it.
unfoldable pub granularity_loop : ℕ → ℕ → CapturePoint → Decision → ℕ → ℕ → Outcome Bool
unfolding granularities_have records_at
granularity_loop zero gran cp e next i = fault out_of_fuel
granularity_loop (suc fuel) gran cp e next i =
    let rest = granularity_loop fuel gran cp e next ((i * 2) % 0x1_0000_0000) in
    if not (leb i gran)
    then ok false
    else (if not (granularities_have gran i)
        then rest
        else (do found ← records_at cp e next i; if found then ok true else rest))

unfoldable pub granularity_should_record : Config → CapturePoint → Decision → ℕ → Outcome Bool
unfolding granularity_loop
granularity_should_record config cp e next = granularity_loop 34 config.gran cp e next 1

-- `sequencer_resume` without its publication: the new state, and whether the recorder is called.
unfoldable pub resume : Config → Sequencer → CapturePoint → Outcome (Sequencer × Bool)
resume config s cp =
    if s.clk == 0
    then ok (s, false)
    else (if (cp.id == 1) && (cp.type_id == 0) then ok (s, false) else (do
      let prev_create = s.prev_type == event_task_create
      let records =
          s.should_record
          || (((ltb 0 config.slack && s.prev_blocking) && not (cp.id == s.prev_task))
              || ((not prev_create && ((config.slack == 0) || not s.prev_blocking))
                  && not (s.next_task == cp.id)))
      s' ← update_unblocked s
      ok (s', records)))

-- What the granularity asks for: bit 0 at a switch of tasks, bit 1 at a change point, bit 2 always.
abbrev pub wanted : ℕ → CapturePoint → Decision → ℕ → Bool
wanted gran cp e next =
    (granularities_have gran granularity_switch && not (next == cp.id))
    || ((granularities_have gran granularity_chpt && e.is_chpt)
        || granularities_have gran granularity_capture)

none_below_4 : (g : ℕ) → g < 4 → granularities_have g granularity_capture ≡ false
unfolding granularities_have
none_below_4 zero h = refl
none_below_4 (suc zero) h = refl
none_below_4 (suc (suc zero)) h = refl
none_below_4 (suc (suc (suc zero))) h = refl
none_below_4 (suc (suc (suc (suc g)))) h = absurd (omega arith)

none_below_2 : (g : ℕ) → g < 2 → granularities_have g granularity_chpt ≡ false
unfolding granularities_have
none_below_2 zero h = refl
none_below_2 (suc zero) h = refl
none_below_2 (suc (suc g)) h = absurd (omega arith)

-- One round of the loop.
a_round :
    (fuel gran : ℕ) (cp : CapturePoint) (e : Decision) (next i : ℕ) (asks : Bool)
    → records_at cp e next i ≡ ok asks
    → granularity_loop (suc fuel) gran cp e next i ≡ (
        if not (leb i gran)
        then ok false
        else (if granularities_have gran i && asks
            then ok true
            else granularity_loop fuel gran cp e next ((i * 2) % 0x1_0000_0000)))
unfolding granularity_loop
a_round fuel gran cp e next i asks h = ground (arith, h)

at_8 :
    (fuel gran : ℕ) (cp : CapturePoint) (e : Decision) (next : ℕ)
    → gran < 8
    → granularity_loop (suc fuel) gran cp e next 8 ≡ ok false
unfolding granularity_loop
at_8 fuel gran cp e next h = ground arith

at_4 :
    (fuel gran : ℕ) (cp : CapturePoint) (e : Decision) (next : ℕ)
    → gran < 8
    → granularity_loop (suc (suc fuel)) gran cp e next granularity_capture
      ≡ ok (granularities_have gran granularity_capture)
unfolding records_at
at_4 fuel gran cp e next h =
    a_round (suc fuel) gran cp e next 4 true refl
    ∙ ground (arith, at_8 fuel gran cp e next h, none_below_4 gran)

at_2 :
    (fuel gran : ℕ) (cp : CapturePoint) (e : Decision) (next : ℕ)
    → gran < 8
    → granularity_loop (suc (suc (suc fuel))) gran cp e next granularity_chpt
      ≡ ok (
          (granularities_have gran granularity_chpt && e.is_chpt)
          || granularities_have gran granularity_capture)
unfolding records_at
at_2 fuel gran cp e next h =
    a_round (suc (suc fuel)) gran cp e next 2 e.is_chpt refl
    ∙ ground (arith, at_4 fuel gran cp e next h, none_below_4 gran, none_below_2 gran)

at_0 :
    (fuel : ℕ) (cp : CapturePoint) (e : Decision) (next : ℕ)
    → granularity_loop (suc fuel) 0 cp e next 1 ≡ ok (wanted 0 cp e next)
unfolding granularity_loop granularities_have
at_0 fuel cp e next = refl

at_1 :
    (fuel gran : ℕ) (cp : CapturePoint) (e : Decision) (next : ℕ)
    → gran < 8
    → 0 < gran
    → granularity_loop (suc (suc (suc (suc fuel)))) gran cp e next granularity_switch
      ≡ ok (wanted gran cp e next)
unfolding records_at
at_1 fuel gran cp e next h k =
    a_round (suc (suc (suc fuel))) gran cp e next 1 (not (next == cp.id)) refl
    ∙ ground (arith, at_2 fuel gran cp e next h)

-- For every set of the three granularities the loop ends within its fuel, and it records exactly if
-- a granularity of the set asks for it: a switch of tasks, a change point, or any capture.
pub granularity_should_record-wanted :
    (config : Config) (cp : CapturePoint) (e : Decision) (next : ℕ)
    → config.gran < 8
    → granularity_should_record config cp e next ≡ ok (wanted config.gran cp e next)
unfolding granularity_should_record
granularity_should_record-wanted config cp e next h = elim (Bool-cases (config.gran == 0)) [
  | inl none ↦ let q : config.gran ≡ 0 = ground arith in rw q (at_0 33 cp e next)
  | inr some ↦ at_1 30 config.gran cp e next h (ground arith)
]
