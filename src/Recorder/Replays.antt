-- ===== src/Recorder/Replays.antt =====
-- Which records a replayed clock takes from the trace (src/engine/recorder.c).
use lotto.Base.{
  ℕ, ◌-◌, ◌≡◌, refl, sym, ap, ◌∙◌, Bool, true, false, not, ◌&&◌, ◌||◌, List, [], ◌∷◌, ◌++◌, Option,
  none, some, if◌then◌else◌, arith, ok, ◌>>=◌, Returns, Returns-bind, Returns_mono, Bool-cases, inl,
  inr, leb, ◌==◌,
}
use mathlib.Core.List.{append-nil, append_assoc}
use lotto.TraceFlat.{Record, selects, record_any}
use lotto.Sequencer.Capture.{Replay, Status, is_done, replay_force, replay_load, replay_cont}
use lotto.Recorder.Out.{out-Returns}
use lotto.Recorder
use lotto.Recorder.{Recorder, Capture, out, is_ahead, load_record, replay_next}

-- The records that belong to a clock up to `clk`
unfoldable pub due : ℕ → List Record → List Record
due clk [] = []
due clk (r ∷ l) =
    let rest = due clk l in
    if not (selects r.kind record_any) then rest else if is_ahead clk r then [] else r ∷ rest

-- The trace from the first record of a later clock on
unfoldable pub later : ℕ → List Record → Option (List Record)
later clk [] = none
later clk (r ∷ l) =
    let rest = later clk l in
    if not (selects r.kind record_any) then rest else if is_ahead clk r then some (r ∷ l) else rest

-- The record decides which task runs.
unfoldable pub decides : Record → Bool
decides r = (r.kind == Recorder.record_force) || (r.kind == Recorder.record_sched)

-- The record may be replayed at the clock; `undecided` is that no record has decided yet.
unfoldable pub loadable : ℕ → Bool → Record → Bool
loadable clk undecided r =
    ((r.kind == Recorder.record_force) && undecided)
    || (r.kind == Recorder.record_sched)
    || (r.kind == Recorder.record_opaque)
    || (r.kind == Recorder.record_exit)
    || ((r.kind == Recorder.record_start) && (clk == 1))
    || (r.kind == Recorder.record_config)

-- No record is more than a clock late, and those that are due may be replayed.
unfoldable pub replayable : ℕ → Bool → List Record → Bool
replayable clk undecided [] = true
replayable clk undecided (r ∷ l) =
    let rest = replayable clk undecided l in
    let rest_decided = replayable clk (undecided && not (decides r)) l in
    if not (selects r.kind record_any)
    then rest
    else ((clk == 0) || leb (clk - 1) r.clk)
      && (is_ahead clk r || (loadable clk undecided r && rest_decided))

abbrev is_none {ℓ} : {A : Type ℓ} → Option A → Bool
is_none none = true
is_none (some a) = false

module _ (append_ok : Record → Bool) (accepts : (r : Record) → append_ok r ≡ true) where
  abbrev Loaded : Record → Recorder → Replay → Recorder × Replay → Type 0
  Loaded r s ry (t, ry') =
      (t.loaded ≡ s.loaded ++ r ∷ [])
      × (is_done ry'.status ≡ (is_done ry.status && not (decides r)))

  out_then :
      (r : Record) (s s' : Recorder) (ry answer : Replay)
      → s'.loaded ≡ s.loaded ++ r ∷ []
      → (r.kind == Recorder.record_none) ≡ false
      → is_done answer.status ≡ (is_done ry.status && not (decides r))
      → Returns (do t ← out append_ok s' r; ok (t, answer)) (Loaded r s ry)
  out_then r s s' ry answer given known status =
      Returns-bind (λ t. t.loaded ≡ s'.loaded) (Loaded r s ry) (out append_ok s' r)
        (λ t. ok (t, answer)) (out-Returns append_ok s' r known (accepts r))
        (λ t e. (e ∙ given, status))

  sched_decides :
      (status : Status) → is_done (if is_done status then replay_load else status) ≡ false
  sched_decides status = elim (Bool-cases (is_done status)) [
    | inl d ↦ rw d refl
    | inr d ↦ rw (d, d) refl
  ]

  unmarshal_lem :
      (r : Record) (s : Recorder)
      → Recorder.is_state_kind r.kind ≡ true
      → Recorder.unmarshal_record r s ≡ ok (record s { loaded = s.loaded ++ r ∷ [] })
  unfolding Recorder.unmarshal_record
  unmarshal_lem r s known = rw known refl

  loadable_kind :
      (clk : ℕ) (undecided : Bool) (r : Record)
      → loadable clk undecided r ≡ true
      → (Recorder.is_state_kind r.kind ≡ true) × ((r.kind == Recorder.record_info) ≡ false)
  unfolding loadable Recorder.is_state_kind
  loadable_kind clk undecided r h = (ground arith, ground arith)

  load_other :
      (clk : ℕ) (r : Record) (s : Recorder) (ry : Replay)
      → (r.kind == Recorder.record_info) ≡ false
      → (r.kind == Recorder.record_force) ≡ false
      → (r.kind == Recorder.record_sched) ≡ false
      → loadable clk (is_done ry.status) r ≡ true
      → Returns (load_record append_ok clk r s ry) (Loaded r s ry)
  unfolding load_record loadable decides
  load_other clk r s ry i f d h =
      let u = unmarshal_lem r s (loadable_kind clk (is_done ry.status) r h).0 in
      let s' : Recorder = record s { loaded = s.loaded ++ r ∷ [] } in
      elim (Bool-cases (r.kind == Recorder.record_opaque)) [
        | inl opaque_one ↦ rw (load_record, u, i, f, d, opaque_one) (refl, ground arith)
        | inr o ↦ elim (Bool-cases (r.kind == Recorder.record_exit)) [
          | inl exits ↦ rw (load_record, u, i, f, d, o, exits) (refl, ground arith)
          | inr x ↦ elim (Bool-cases (r.kind == Recorder.record_start)) [
            | inl starts ↦
                let first_clk : (clk == 1) ≡ true = ground arith in
                rw (load_record, u, i, f, d, o, x, starts, first_clk)
                  (out_then r s s' ry ry refl (ground arith) (ground arith))
            | inr t ↦
                let config : (r.kind == Recorder.record_config) ≡ true = ground arith in
                rw (load_record, u, i, f, d, o, x, t, config)
                  (out_then r s s' ry ry refl (ground arith) (ground arith))
          ]
        ]
      ]

  load_record-Loaded :
      (clk : ℕ) (r : Record) (s : Recorder) (ry : Replay)
      → loadable clk (is_done ry.status) r ≡ true
      → Returns (load_record append_ok clk r s ry) (Loaded r s ry)
  unfolding load_record loadable decides
  load_record-Loaded clk r s ry h =
      let s' : Recorder = record s { loaded = s.loaded ++ r ∷ [] } in
      let (known, i) = loadable_kind clk (is_done ry.status) r h in
      let u = unmarshal_lem r s known in
      elim (Bool-cases (r.kind == Recorder.record_force)) [
        | inl force ↦
            let undecided : is_done ry.status ≡ true = ground arith in
            rw (load_record, u, i, force, undecided)
              (out_then r s s' ry (record { status = replay_force; id = r.id }) refl (ground arith)
                (ground arith))
        | inr f ↦ elim (Bool-cases (r.kind == Recorder.record_sched)) [
          | inl sched ↦
              rw (load_record, u, i, f, sched) (refl, ground (arith, sched_decides ry.status))
          | inr d ↦ load_other clk r s ry i f d h
        ]
      ]

  -- What a clock takes from the trace, and what it says at the end of it
  abbrev pub Taken : ℕ → List Record → Recorder → Recorder × Replay → Type 0
  Taken clk l s (t, ry) =
      (t.loaded ≡ s.loaded ++ due clk l)
      × (t.input ≡ later clk l)
      × ((not (is_done ry.status) || is_none t.input) ≡ true)

  -- A record that is passed over or loaded, before what the rest of the loop takes
  Taken-after :
      (clk : ℕ) (l l' due_before : List Record) (s t : Recorder) (result : Recorder × Replay)
      → t.loaded ≡ s.loaded ++ due_before
      → due clk l ≡ due_before ++ due clk l'
      → later clk l ≡ later clk l'
      → Taken clk l' t result
      → Taken clk l s result
  Taken-after clk l l' due_before s t (u, ry) before split same (loaded, input, status) = (
    loaded
        ∙ ap (λ x. x ++ due clk l') before
        ∙ append_assoc s.loaded due_before (due clk l')
        ∙ ap (λ x. s.loaded ++ x) (sym split),
    input ∙ sym same,
    status,
  )

  due_nil : (clk : ℕ) → due clk [] ≡ []
  unfolding due
  due_nil clk = refl

  later_nil : (clk : ℕ) → later clk [] ≡ none
  unfolding later
  later_nil clk = refl

  due_step :
      (clk : ℕ) (r : Record) (l : List Record)
      → selects r.kind record_any ≡ true
      → is_ahead clk r ≡ false
      → (due clk (r ∷ l) ≡ r ∷ due clk l) × (later clk (r ∷ l) ≡ later clk l)
  unfolding due later
  due_step clk r l kind now = ground arith

  due_skip :
      (clk : ℕ) (r : Record) (l : List Record)
      → selects r.kind record_any ≡ false
      → (due clk (r ∷ l) ≡ due clk l) × (later clk (r ∷ l) ≡ later clk l)
  unfolding due later
  due_skip clk r l unkind = ground arith

  due_stop :
      (clk : ℕ) (r : Record) (l : List Record)
      → selects r.kind record_any ≡ true
      → is_ahead clk r ≡ true
      → (due clk (r ∷ l) ≡ []) × (later clk (r ∷ l) ≡ some (r ∷ l))
  unfolding due later
  due_stop clk r l kind ahead = ground arith

  cont_decides :
      (ry : Replay)
      → is_done (if is_done ry.status then record ry { status = replay_cont } else ry).status
        ≡ false
  cont_decides ry = elim (Bool-cases (is_done ry.status)) [
    | inl d ↦ rw d refl
    | inr d ↦ rw (d, d) refl
  ]

  -- If no record of the trace is more than one clock late, those that are due may be replayed at
  -- the clock, and `trace_append` succeeds, the replay of a clock returns. It hands just the due
  -- records to the state manager, in their order; the trace is left at the first record of a
  -- later clock, or gone if there is none; and it says that the replay is over only if the trace
  -- is gone.
  pub replay_next-Taken :
      (clk : ℕ) (l : List Record) (s : Recorder) (ry : Replay)
      → replayable clk (is_done ry.status) l ≡ true
      → Returns (replay_next append_ok clk l s ry) (Taken clk l s)
  unfolding replay_next replayable
  replay_next-Taken clk [] s ry h = (
    sym (append-nil s.loaded) ∙ ap (λ x. s.loaded ++ x) (sym (due_nil clk)),
    sym (later_nil clk),
    ground arith,
  )
  replay_next-Taken clk (r ∷ l) s ry h = elim (Bool-cases (selects r.kind record_any)) [
    | inr unkind ↦
        let (d, t) = due_skip clk r l unkind in
        rw (replay_next, unkind)
          (Returns_mono (Taken clk l s) (Taken clk (r ∷ l) s) (replay_next append_ok clk l s ry)
            (replay_next-Taken clk l s ry (ground arith))
            (λ result taken.
              Taken-after clk (r ∷ l) l [] s s result (sym (append-nil s.loaded)) d t taken))
    | inl kind ↦
        let in_time : ((clk == 0) || leb (clk - 1) r.clk) ≡ true = ground arith in
        elim (Bool-cases (is_ahead clk r)) [
          | inl ahead ↦
              let (d, t) = due_stop clk r l kind ahead in
              rw (replay_next, kind, in_time, ahead)
                (
                  sym (append-nil s.loaded) ∙ ap (λ x. s.loaded ++ x) (sym d),
                  sym t,
                  rw (cont_decides ry) refl,
                )
          | inr now ↦
              let (d, t) = due_step clk r l kind now in
              rw (replay_next, kind, in_time, now)
                (Returns-bind (Loaded r s ry) (Taken clk (r ∷ l) s)
                  (load_record append_ok clk r s ry)
                  (λ (u, answer). replay_next append_ok clk l u answer)
                  (load_record-Loaded clk r s ry (ground arith))
                  (λ (u, answer) (loaded, status).
                    Returns_mono (Taken clk l u) (Taken clk (r ∷ l) s)
                      (replay_next append_ok clk l u answer)
                      (replay_next-Taken clk l u answer (rw status (ground arith)))
                      (λ result taken.
                        Taken-after clk (r ∷ l) l (r ∷ []) s u result loaded d t taken)))
        ]
  ]
