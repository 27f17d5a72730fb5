-- ===== src/Recorder/Runs.antt =====
-- Recording a run and replaying its trace (src/engine/recorder.c).
use lotto.Base.{
  ℕ, zero, suc, ◌+◌, ◌-◌, ◌≤◌, ◌<◌, ◌≡◌, ◌≢◌, refl, sym, ap, ◌∙◌, subst, ◌⊎◌, inl, inr, Bool, true,
  false, not, ◌||◌, List, [], ◌∷◌, ◌++◌, Option, none, some, ltb, leb, ◌==◌, if◌then◌else◌, arith,
  Bool-cases, Returns, Returns_mono, Returned, Outcome, ok, ◌>>=◌, assert,
}
use mathlib.Core.List.{append-nil, append_assoc}
use lotto.Base.Words.{no_task}
use lotto.TraceFlat.{Record}
use lotto.Sequencer.Capture.{Replay, replay_done, replay_load, replay_cont}
use lotto.Recorder.{
  Recorder, Capture, is_after_kind, is_ahead, out, load_record, unmarshal_record, is_state_kind,
  replay_next, recorder_replay, recorder_record, sched_record, recorder_init,
}

-- What is recorded at one clock
pub record Entry : Type 0 where
  pub capture : Capture
  pub clk : ℕ
  pub state : List ℕ

abbrev pub records_of : List Entry → List Record
records_of [] = []
records_of (e ∷ es) = sched_record e.capture e.clk e.state ∷ records_of es

-- The entries are of tasks, at ascending clocks above `c`.
abbrev pub Ascend : ℕ → List Entry → Type 0
Ascend c [] = Unit
Ascend c (e ∷ es) = (c < e.clk) × (e.capture.id ≢ no_task) × Ascend e.clk es

module _ (append_ok : Record → Bool) where
  unfoldable pub record_all : List Entry → Recorder → Outcome Recorder
  record_all [] s = ok s
  record_all (e ∷ es) s = do
    s' ← recorder_record append_ok e.capture e.clk e.state s
    record_all es s'

  -- The replay at `n` clocks from `clk` on
  unfoldable pub replays : ℕ → ℕ → Recorder → Outcome (List Replay)
  replays zero clk s = ok []
  replays (suc n) clk s = do
    (s', ry) ← recorder_replay append_ok clk s
    more ← replays n (suc clk) s'
    ok (ry ∷ more)

-- What the entries ask for at a clock: the task that was recorded at it; going on while later
-- entries are left.
unfoldable pub expected : ℕ → List Entry → Replay
expected clk [] = record { status = replay_done; id = no_task }
expected clk (e ∷ es) =
    if e.clk == clk
    then record { status = replay_load; id = e.capture.id }
    else if ltb clk e.clk
    then record { status = replay_cont; id = no_task }
    else expected clk es

unfoldable pub schedule : ℕ → ℕ → List Entry → List Replay
schedule zero clk es = []
schedule (suc n) clk es = expected clk es ∷ schedule n (suc clk) es

module _ (append_ok : Record → Bool) (accepts : (r : Record) → append_ok r ≡ true) where
  -- A recorder without input, behind the records `l`
  abbrev recording : List Record → ℕ → Bool → Recorder
  recording l clk ended = record {
    input = none;
    output = some l;
    has_final = true;
    replay_clk = 0;
    record_clk = clk;
    finito = false;
    replay_ended = ended;
    loaded = [];
    published = [];
  }

  record_one :
      (e : Entry) (l : List Record) (c : ℕ) (ended : Bool)
      → c < e.clk
      → e.capture.id ≢ no_task
      → recorder_record append_ok e.capture e.clk e.state (recording l c ended)
        ≡ ok (recording (l ++ sched_record e.capture e.clk e.state ∷ []) e.clk true)
  unfolding recorder_record out
  record_one e l c ended later task =
      let known : (e.capture.id == no_task) ≡ false = ground arith in
      let running : ltb 0 e.clk ≡ true = ground arith in
      let ascending : ltb c e.clk ≡ true = ground arith in
      let behind : leb 0 e.clk ≡ true = ground arith in
      rw (known, running, ascending, behind, accepts (sched_record e.capture e.clk e.state)) refl

  record_all-records :
      (es : List Entry) (l : List Record) (c : ℕ) (ended : Bool)
      → Ascend c es
      → (t : Recorder) × (record_all append_ok es (recording l c ended) ≡ ok t)
        × (t.output ≡ some (l ++ records_of es))
  unfolding record_all
  record_all-records [] l c ended a = (recording l c ended, refl, ap some (sym (append-nil l)))
  record_all-records (e ∷ es) l c ended (later, task, a) =
      let one = sched_record e.capture e.clk e.state in
      let (t, run, written) = record_all-records es (l ++ one ∷ []) e.clk true a in
      (
        t,
        rw (record_one e l c ended later task) run,
        written ∙ ap some (append_assoc l (one ∷ []) (records_of es)),
      )

  -- The trace that is left to replay holds the entries.
  abbrev Holds : Recorder → List Entry → Type 0
  Holds s es = (s.input ≡ some (records_of es)) ⊎ ((s.input ≡ none) × (es ≡ []))

  -- What one clock of the replay comes to.
  abbrev Replayed : ℕ → List Entry → Recorder × Replay → Type 0
  Replayed clk es (s, ry) =
      (s.finito ≡ false)
      × (s.replay_clk ≡ clk)
      × (ry ≡ expected clk es)
      × ((left : List Entry) × Holds s left
          × Ascend clk left
          × ((c : ℕ) → clk < c → expected c left ≡ expected c es))

  -- Behind the record of the clock the loop stops at the next one.
  abbrev Loaded : ℕ → ℕ → List Entry → Recorder × Replay → Type 0
  Loaded clk id es (s, ry) =
      (s.finito ≡ false)
      × (s.replay_clk ≡ clk)
      × (ry ≡ record { status = replay_load; id = id })
      × Holds s es

  replay_next-Loaded :
      (clk : ℕ) (es : List Entry) (s : Recorder) (id : ℕ)
      → s.finito ≡ false
      → s.replay_clk ≡ clk
      → 0 < clk
      → Ascend clk es
      → Returns
          (replay_next append_ok clk (records_of es) s (record { status = replay_load; id = id }))
          (Loaded clk id es)
  unfolding replay_next is_ahead
  replay_next-Loaded clk [] s id alive at pos a = (alive, at, refl, inr (refl, refl))
  replay_next-Loaded clk (e ∷ es) s id alive at pos (later, task, a) =
      let late_enough : ((clk == 0) || leb (clk - 1) e.clk) ≡ true = ground arith in
      let ahead : ltb clk e.clk ≡ true = ground arith in
      rw (late_enough, ahead) (alive, at, refl, inl refl)

  Loaded-Replayed :
      (clk : ℕ) (e : Entry) (es : List Entry) (result : Recorder × Replay)
      → e.clk ≡ clk
      → Ascend clk es
      → Loaded clk e.capture.id es result
      → Replayed clk (e ∷ es) result
  unfolding expected
  Loaded-Replayed clk e es (s, ry) same a (alive, at, answer, holds) =
      (alive, at, ground arith, (es, holds, a, λ c l. ground arith))

  replay_next-Replayed :
      (clk : ℕ) (es : List Entry) (s : Recorder) (before : ℕ)
      → s.finito ≡ false
      → s.replay_clk ≡ clk
      → clk ≡ suc before
      → Ascend before es
      → Returns
          (replay_next append_ok clk
            (records_of es)
            s
            (record { status = replay_done; id = no_task }))
          (Replayed clk es)
  unfolding replay_next load_record unmarshal_record is_state_kind is_ahead is_after_kind expected
  replay_next-Replayed clk [] s before alive at next a =
      (alive, at, refl, ([], inr (refl, refl), tt, λ c l. refl))
  replay_next-Replayed clk (e ∷ es) s before alive at next (later, task, a) =
      let late_enough : ((clk == 0) || leb (clk - 1) e.clk) ≡ true = ground arith in
      elim (Bool-cases (ltb clk e.clk)) [
        | inl ahead ↦
            rw (late_enough, ahead)
              (alive, at, ground arith, (e ∷ es, inl refl, (ground arith, task, a), λ c l. refl))
        | inr now ↦
            let same : e.clk ≡ clk = ground arith in
            rw (late_enough, now)
              (Returns_mono (Loaded clk e.capture.id es) (Replayed clk (e ∷ es))
                (replay_next append_ok clk (records_of es)
                  (record s { loaded = s.loaded ++ sched_record e.capture e.clk e.state ∷ [] })
                  (record { status = replay_load; id = e.capture.id }))
                (replay_next-Loaded clk es
                  (record s { loaded = s.loaded ++ sched_record e.capture e.clk e.state ∷ [] })
                  e.capture.id alive at (omega (arith, next)) (subst (λ c. Ascend c es) same a))
                (λ result done.
                  Loaded-Replayed clk e es result same (subst (λ c. Ascend c es) same a) done))
      ]

  pass {ℓ} : {B : Type ℓ} (b : Bool) (m : Outcome B) → b ≡ true → (assert b >>= λ done. m) ≡ m
  pass b m h = rw h refl

  recorder_replay-input :
      (clk : ℕ) (s : Recorder) (input : Option (List Record))
      → s.finito ≡ false
      → clk ≡ suc s.replay_clk
      → s.input ≡ input
      → recorder_replay append_ok clk s ≡ (elim input [
        | none ↦ ok (
          record s { replay_clk = s.replay_clk + 1 },
          record { status = replay_done; id = no_task },
        )
        | some l ↦
            replay_next append_ok clk l
              (record s { replay_clk = s.replay_clk + 1 })
              (record { status = replay_done; id = no_task })
      ])
  unfolding recorder_replay
  recorder_replay-input clk s input alive next given =
      let in_order : (clk == s.replay_clk + 1) ≡ true = ground arith in
      pass (not s.finito) _ (ap not alive)
      ∙ pass (clk == s.replay_clk + 1) _ in_order
      ∙ ap
          (λ i. elim i as (λ x. Outcome (Recorder × Replay)) [
            | none ↦ ok (
              record s { replay_clk = s.replay_clk + 1 },
              record { status = replay_done; id = no_task },
            )
            | some l ↦
                replay_next append_ok clk l (record s { replay_clk = s.replay_clk + 1 })
                  (record { status = replay_done; id = no_task })
          ])
          given

  recorder_replay-Replayed :
      (clk : ℕ) (es : List Entry) (s : Recorder)
      → s.finito ≡ false
      → clk ≡ suc s.replay_clk
      → Ascend s.replay_clk es
      → Holds s es
      → Returns (recorder_replay append_ok clk s) (Replayed clk es)
  unfolding expected
  recorder_replay-Replayed clk es s alive next a (inl given) =
      rw (recorder_replay-input clk s (some (records_of es)) alive next given) (
        replay_next-Replayed clk es (record s { replay_clk = s.replay_clk + 1 }) s.replay_clk alive
          (omega (arith, next)) next a)
  recorder_replay-Replayed clk es s alive next a (inr (over, no_more)) =
      rw (recorder_replay-input clk s none alive next over, no_more)
        (alive, omega (arith, next), refl, ([], inr (over, refl), tt, λ c l. refl))

  schedule_same :
      (n clk : ℕ) (es fs : List Entry)
      → ((c : ℕ) → clk ≤ c → expected c es ≡ expected c fs)
      → schedule n clk es ≡ schedule n clk fs
  unfolding schedule
  schedule_same zero clk es fs same = refl
  schedule_same (suc n) clk es fs same =
      rw (same clk (omega arith), schedule_same n (suc clk) es fs (λ c l. same c (omega arith)))
        refl

  replays-schedule :
      (n clk : ℕ) (es : List Entry) (s : Recorder)
      → s.finito ≡ false
      → clk ≡ suc s.replay_clk
      → Ascend s.replay_clk es
      → Holds s es
      → replays append_ok n clk s ≡ ok (schedule n clk es)
  unfolding replays schedule
  replays-schedule zero clk es s alive next a holds = refl
  replays-schedule (suc n) clk es s alive next a holds =
      let ((t, ry), call, (alive_t, at, answer, (left, holds_t, ascend_t, same))) =
        Returned (Replayed clk es) (recorder_replay append_ok clk s)
          (recorder_replay-Replayed clk es s alive next a holds) in
      let rest : replays append_ok n (suc clk) t ≡ ok (schedule n (suc clk) left) =
        replays-schedule n (suc clk) left t alive_t (omega (arith, at))
          (subst (λ c. Ascend c left) (sym at) ascend_t) holds_t in
      rw (call, rest, answer, schedule_same n (suc clk) left es (λ c l. same c (omega arith))) refl

  -- If `trace_append` succeeds, a run of tasks other than NO_TASK that is recorded at ascending
  -- clocks above 0 records without an abort, and a replay of the written trace from clock 1 on,
  -- over any number of clocks, says at each clock what was recorded: to load the task of that
  -- clock, to go on while later records are left, and at the end that the replay is over.
  pub replays-record_all :
      (n : ℕ) (es : List Entry)
      → Ascend 0 es
      → (do
        s ← record_all append_ok es (recorder_init none (some []))
        replays append_ok n 1 (recorder_init s.output none))
        ≡ ok (schedule n 1 es)
  unfolding recorder_init
  replays-record_all n es a =
      let (t, run, written) = record_all-records es [] 0 false a in
      rw run (replays-schedule n 1 es (recorder_init t.output none) refl refl a (inl written))
