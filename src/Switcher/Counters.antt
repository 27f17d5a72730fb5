-- ===== src/Switcher/Counters.antt =====
-- The counters of the switcher's buckets, and whom `switcher_wake` signals.
use lotto.Base.{
  ℕ, suc, ◌+◌, ◌-◌, ◌%◌, ◌^◌, ◌<◌, ◌≡◌, ◌≢◌, ◌⊎◌, ◌∙◌, refl, sym, ap, subst, Bool, true, false,
  some, List, [], ◌∷◌, ◌==◌, if◌then◌else◌, ok, elem, arith, Bool-cases, Returns, Returns_of,
  Returns_mono, not, ◌&&◌, ◌||◌, inl, inr, ==_refl,
}
use lotto.Base.Words.{no_task, any_task}
use lotto.Switcher.{
  Switcher, initial, bucket, nbuckets, change, Turn, waits, sleeps, returns, check, arrive, rise,
  wake, wake_index, waiting_from, signals, abort,
}
use lotto.Switcher.Buckets.{wake_index_iff, elem-waiting_from}
use lotto.Switcher.Turns.{Turns, stays, goes, check-Turns}
use lotto.Switcher.Steps.{after-shared, wake_lem, recheck-cases, arrive-Turns, rise-Turns}
use lotto.Switcher.Runs.{
  System, begin, erase, Event, after, entered, Step, arrives, rechecks, rises, wakes, aborts, Run,
  stop, more,
}

-- How many of the tasks are in the bucket.
abbrev pub in_bucket : ℕ → List ℕ → ℕ
in_bucket b [] = 0
in_bucket b (x ∷ l) = let rest = in_bucket b l in if bucket x == b then suc rest else rest

abbrev pub IsCounted : System → Type 0
IsCounted s = (b : ℕ) → s.shared.counter b ≡ in_bucket b s.inside

in_bucket-erase :
    (b id : ℕ) (l : List ℕ)
    → elem id l ≡ true
    → in_bucket b (erase id l) + (if bucket id == b then 1 else 0) ≡ in_bucket b l
in_bucket-erase b id [] h = absurd (ground arith)
in_bucket-erase b id (x ∷ l) h = elim (Bool-cases (x == id)) [
  | inl same ↦ let q : x ≡ id = ground arith in rw (same, q) (added (bucket id == b))
  | inr different ↦ rw different (passed (bucket x == b) (in_bucket-erase b id l (rest different)))
]
  where
    added :
        (k : Bool)
        → in_bucket b l + (if k then 1 else 0) ≡ (if k then suc (in_bucket b l) else in_bucket b l)
    added true = omega arith
    added false = omega arith

    rest : (x == id) ≡ false → elem id l ≡ true
    rest n = ground arith

    passed :
        (k : Bool)
        → in_bucket b (erase id l) + (if bucket id == b then 1 else 0) ≡ in_bucket b l
        → (if k then suc (in_bucket b (erase id l)) else in_bucket b (erase id l))
            + (if bucket id == b then 1 else 0)
          ≡ (if k then suc (in_bucket b l) else in_bucket b l)
    passed true e = omega arith
    passed false e = omega arith

fewer : (k : Bool) (a e n : ℕ) → e + (if k then 1 else 0) ≡ n → a ≡ n → (if k then a - 1 else a) ≡ e
fewer true a e n h q = omega arith
fewer false a e n h q = omega arith

after-waits :
    (s : System) (id b : ℕ) (q : Switcher × Turn) → q.1 ≡ waits b → (after s id q).inside ≡ s.inside
after-waits s id b q e = ap (λ t. (after s id (q.0, t)).inside) e

after-returns :
    (s : System) (id : ℕ) (status : _) (q : Switcher × Turn)
    → q.1 ≡ returns status
    → (after s id q).inside ≡ erase id s.inside
after-returns s id status q e = ap (λ t. (after s id (q.0, t)).inside) e

Turns-IsCounted :
    (t : Switcher) (s : System) (id : ℕ) (q : Switcher × Turn)
    → Turns t id q
    → elem id s.inside ≡ true
    → ((b : ℕ) → t.counter b ≡ in_bucket b s.inside)
    → IsCounted (after s id q)
Turns-IsCounted t s id q (stays same other running turn) there counted b =
    ap (λ x. x.counter b) (after-shared s id q ∙ same)
    ∙ counted b
    ∙ ap (in_bucket b) (sym (after-waits s id _ q turn))
Turns-IsCounted t s id q (goes status turn idle counter same may) there counted b =
    ap (λ x. x.counter b) (after-shared s id q)
    ∙ ap (λ f. f b) counter
    ∙ fewer (bucket id == b) _ _ _ (in_bucket-erase b id s.inside there) (counted b)
    ∙ ap (in_bucket b) (sym (after-returns s id status q turn))

sleeps-IsCounted : (s : System) (id : ℕ) → IsCounted s → IsCounted (after s id (s.shared, sleeps))
sleeps-IsCounted s id counted = counted

entered-counted :
    (m : System) (id : ℕ)
    → IsCounted m
    → (b : ℕ) → change m.shared.counter (bucket id) suc b ≡ in_bucket b (id ∷ m.inside)
entered-counted m id counted b = ap (λ n. if bucket id == b then suc n else n) (counted b)

entered_here : (id : ℕ) (l : List ℕ) → elem id (id ∷ l) ≡ true
entered_here id l = ground arith

wake-counter :
    (m : Switcher) (id slack : ℕ) (w : Switcher) (signalled : List ℕ)
    → wake m id slack ≡ ok (w, signalled)
    → w.counter ≡ m.counter
wake-counter m id slack w signalled h = ap (λ x. x.counter) (wake_lem m id slack w signalled h).2

abort-counter : (m : Switcher) → (abort m).counter ≡ m.counter
unfolding abort
abort-counter m = refl

Step-IsCounted : (m : System) (e : Event) (r : System) → Step m e r → IsCounted m → IsCounted r
Step-IsCounted m e r (arrives id refused n out event result) v = subst IsCounted (sym result) (
    Turns-IsCounted _ (entered m id) id (arrive m.shared id refused)
      (arrive-Turns m.shared id refused) (entered_here id m.inside) (entered-counted m id v))
Step-IsCounted m e r (rechecks id refused n inside awake event result) v =
    subst IsCounted (sym result) (elim (recheck-cases m.shared id refused) [
      | inl slept ↦ subst (λ q. IsCounted (after m id q)) (sym slept) v
      | inr checked ↦
          subst (λ q. IsCounted (after m id q)) (sym checked)
            (Turns-IsCounted m.shared m id (check m.shared id refused)
              (check-Turns m.shared id refused) inside v)
    ])
Step-IsCounted m e r (rises id refused n inside slept event result) v =
    subst IsCounted (sym result)
      (Turns-IsCounted _ m id (rise m.shared id refused) (rise-Turns m.shared id refused) inside v)
Step-IsCounted m e r (wakes id slack w signalled h event result) v =
    subst IsCounted (sym result)
      (λ b. ap (λ f. f b) (wake-counter m.shared id slack w signalled h) ∙ v b)
Step-IsCounted m e r (aborts event result) v =
    subst IsCounted (sym result) (λ b. ap (λ f. f b) (abort-counter m.shared) ∙ v b)

begin-IsCounted : IsCounted begin
unfolding initial
begin-IsCounted b = refl

pub Run-IsCounted : (log : List Event) (r : System) → Run begin log r → IsCounted r
Run-IsCounted log r (stop no_events same) = subst IsCounted (sym same) begin-IsCounted
Run-IsCounted log r (more {before} {m} {e} run step events) =
    Step-IsCounted m e r step (Run-IsCounted before m run)

-- A bucket with a task has a positive counter.
in_bucket-pos : (x : ℕ) (l : List ℕ) → elem x l ≡ true → 0 < in_bucket (bucket x) l
in_bucket-pos x [] h = absurd (ground arith)
in_bucket-pos x (y ∷ l) h = elim (Bool-cases (y == x)) [
  | inl same ↦ let q : y ≡ x = ground arith in rw (q, ==_refl (bucket x)) (omega arith)
  | inr different ↦ grows (bucket y == bucket x) (in_bucket-pos x l (ground arith))
]
  where
    grows :
        (k : Bool)
        → 0 < in_bucket (bucket x) l
        → 0 < (if k then suc (in_bucket (bucket x) l) else in_bucket (bucket x) l)
    grows true h = omega arith
    grows false h = h

signals-one :
    (s : Switcher) (id : ℕ)
    → id ≢ any_task
    → wake_index id ≡ some (bucket id)
    → signals s id ≡ ok (bucket id ∷ [])
unfolding signals
signals-one s id n e = ground (arith, e)

signals-any : (s : Switcher) → signals s any_task ≡ ok (waiting_from s.counter 0 nbuckets)
unfolding signals
signals-any s = refl

wake-ok :
    (s : Switcher) (id slack : ℕ) (bs : List ℕ)
    → s.next ≡ no_task
    → id ≢ no_task
    → signals (record s { next = id; slack = slack }) id ≡ ok bs
    → wake s id slack ≡ ok (record s { next = id; slack = slack }, bs)
unfolding wake
wake-ok s id slack bs idle n e = ground (arith, e)

bucket_bound : (x : ℕ) → bucket x < 0 + nbuckets
bucket_bound x = omega arith

one_signals :
    (s : Switcher) (id slack : ℕ)
    → s.next ≡ no_task
    → id ≢ no_task
    → id ≢ any_task
    → id % 2 ^ 32 < 2 ^ 31
    → Returns (wake s id slack) (λ r. elem (bucket id) r.1 ≡ true)
one_signals s id slack idle n alone small =
    let t : Switcher = record s { next = id; slack = slack } in
    Returns_of _ {m = wake s id slack} (t, bucket id ∷ [])
      (wake-ok s id slack _ idle n (signals-one t id alone ((wake_index_iff id).1 (inl small))))
      (entered_here (bucket id) [])

-- Of the tasks in the list, each that waking `id` enables has its bucket among the signalled ones.
unfoldable pub all_signalled : ℕ → List ℕ → List ℕ → Bool
all_signalled id [] buckets = true
all_signalled id (x ∷ l) buckets =
    let rest = all_signalled id l buckets in
    (not ((x == id) || (id == any_task)) || elem (bucket x) buckets) && rest

all_signalled_any :
    (id : ℕ) (l buckets : List ℕ)
    → ((x : ℕ) → elem x l ≡ true → elem (bucket x) buckets ≡ true)
    → all_signalled id l buckets ≡ true
unfolding all_signalled
all_signalled_any id [] buckets h = refl
all_signalled_any id (x ∷ l) buckets h =
    rw (h x (entered_here x l), all_signalled_any id l buckets (λ y e. h y (ground (arith, e))))
      (ground arith)

all_signalled_one :
    (id : ℕ) (l buckets : List ℕ)
    → id ≢ any_task
    → elem (bucket id) buckets ≡ true
    → all_signalled id l buckets ≡ true
unfolding all_signalled
all_signalled_one id [] buckets alone h = refl
all_signalled_one id (x ∷ l) buckets alone h =
    let rest = all_signalled_one id l buckets alone h in
    elim (Bool-cases (x == id)) [
      | inl same ↦ let q : x ≡ id = ground arith in rw (q, h, rest) (ground arith)
      | inr other ↦ let q : (id == any_task) ≡ false = ground arith in rw (other, q, rest) refl
    ]

-- Every task in the system has its bucket among those that waking any task signals.
any_signals :
    (s : System) (id slack : ℕ)
    → IsCounted s
    → s.shared.next ≡ no_task
    → id ≢ no_task
    → id ≡ any_task
    → Returns (wake s.shared id slack) (λ r. all_signalled id s.inside r.1 ≡ true)
any_signals s id slack counted idle n every =
    let t : Switcher = record s.shared { next = id; slack = slack } in
    let waited : (x : ℕ) → elem x s.inside ≡ true → 0 < t.counter (bucket x) =
      λ x there. subst (λ c. 0 < c) (sym (counted (bucket x))) (in_bucket-pos x s.inside there) in
    Returns_of _ {m = wake s.shared id slack} (t, waiting_from t.counter 0 nbuckets)
      (wake-ok s.shared id slack _ idle n (rw every (signals-any _)))
      (all_signalled_any id s.inside (waiting_from t.counter 0 nbuckets) (λ x there.
        elem-waiting_from t.counter 0 nbuckets (bucket x) (omega arith) (bucket_bound x)
          (waited x there)))

-- In every state that a run reaches with no task enabled, waking a task other than NO_TASK whose
-- low 32 bits are below 2^31, or any task, returns, so that its index is in bounds. Of the tasks in
-- `switcher_yield`, if there are any, each that it enables has its bucket among those it signals.
pub wake-signals :
    (log : List Event) (s : System) (id slack : ℕ)
    → Run begin log s
    → s.shared.next ≡ no_task
    → id ≢ no_task
    → (id ≡ any_task) ⊎ (id % 2 ^ 32 < 2 ^ 31)
    → Returns (wake s.shared id slack) (λ r. all_signalled id s.inside r.1 ≡ true)
wake-signals log s id slack run idle n small = elim (Bool-cases (id == any_task)) [
  | inl every ↦ any_signals s id slack (Run-IsCounted log s run) idle n (ground arith)
  | inr alone ↦
      let few : id % 2 ^ 32 < 2 ^ 31 = elim small [ inl q ↦ absurd (ground arith) | inr q ↦ q ] in
      Returns_mono (λ r. elem (bucket id) r.1 ≡ true) (λ r. all_signalled id s.inside r.1 ≡ true)
        (wake s.shared id slack) (one_signals s.shared id slack idle n (ground arith) few)
        (λ r h. all_signalled_one id s.inside r.1 (ground arith) h)
]
