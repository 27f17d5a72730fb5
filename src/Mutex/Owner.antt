-- ===== src/Mutex/Owner.antt =====
-- The runs of the mutex handler of modules/mutex/src/handler.c: captures and resumptions, the states
-- that they reach, and who can own a mutex after whom.
use lotto.Base.{
  ℕ, ◌≡◌, ◌≢◌, refl, Bool, true, Option, ◌==◌, if◌then◌else◌, ok, arith, inl, inr, Bool-cases,
  Outcome-cases, ◌⊎◌, ap,
}
use lotto.Base.Words.{no_task}
use lotto.Mutex.{
  State, Mtx, initial, handle_acquire, posthandle_acquire, posthandle_tryacquire,
  posthandle_release, owner_of,
}
use lotto.Event.{CapturePoint, Decision}
use lotto.Mutex.Handle.{
  Config, handle, on_event, resume, event_mutex_acquire, event_mutex_release,
  event_mutex_tryacquire,
}
use lotto.Mutex.Find.{item, Puts, Drops}
use lotto.Mutex.Valid.{IsSound}
use lotto.Mutex.Effects.{
  unknown, forgotten, lowered, may_take, taken, tryacquire-Puts, acquire-Puts,
  posthandle_acquire-Puts, release-Released,
}
use lotto.Mutex.Steps.{
  initial-IsSound, acquire-IsSound, posthandle_acquire-IsSound, tryacquire-IsSound, release-IsSound,
  handle_parts,
}

pub on_event_keeps :
    (s : State) (cp : CapturePoint) (e : Decision) (r : State) (d : Decision)
    → on_event s cp e ≡ ok (r, d)
    → ((r ≡ s) ⊎ ((cp.type_id ≡ event_mutex_acquire) × (handle_acquire s cp.id cp.addr ≡ ok r)))
      × (d.tset ≡ e.tset)
      × (d.reason ≡ e.reason)
unfolding on_event
on_event_keeps s cp e r d h = elim (Bool-cases (cp.type_id == event_mutex_acquire)) [
  | inl acquires ↦ elim (Outcome-cases (handle_acquire s cp.id cp.addr)) [
    | inl (f, stops) ↦ absurd (ground arith)
    | inr (q, goes) ↦
        let same : q ≡ r = ground arith in
        (inr (ground arith, rw (← same) goes), ground arith, ground arith)
  ]
  | inr else_ ↦ (inl (ground arith), ground arith, ground arith)
]

-- A successful capture, and a successful resumption by a task.
pub data Step (config : Config) (fuel : ℕ) (s : State) (r : State) : Type 0 where
  captured :
      (cp : CapturePoint) (e e' : Decision)
      → handle config fuel s cp e ≡ ok (r, e')
      → Step config fuel s r
  resumed :
      (cp : CapturePoint) (ret : Option ℕ)
      → cp.id ≢ no_task
      → resume config s cp ≡ ok (r, ret)
      → Step config fuel s r

pub data Reach (config : Config) (fuel : ℕ) : State → Type 0 where
  start : Reach config fuel initial
  next : {s r : State} → Reach config fuel s → Step config fuel s r → Reach config fuel r

handle_skip :
    (config : Config) (fuel : ℕ) (s : State) (cp : CapturePoint) (e : Decision) (r : State)
    (e' : Decision)
    → handle config fuel s cp e ≡ ok (r, e')
    → e.skip ≡ true
    → (r ≡ s) × (e' ≡ e)
unfolding handle
handle_skip config fuel s cp e r e' h k = ground arith

handle_state :
    (config : Config) (fuel : ℕ) (s : State) (cp : CapturePoint) (e : Decision) (r : State)
    (e' : Decision)
    → handle config fuel s cp e ≡ ok (r, e')
    → (r ≡ s) ⊎ (handle_acquire s cp.id cp.addr ≡ ok r)
handle_state config fuel s cp e r e' h = elim (Bool-cases e.skip) [
  | inl skips ↦ inl (handle_skip config fuel s cp e r e' h skips).0
  | inr runs ↦
      let parts = handle_parts config fuel s cp e r e' h runs in
      elim (on_event_keeps s cp e r parts.0 parts.3).0 [
        | inl same ↦ inl same
        | inr (_, acquired) ↦ inr acquired
      ]
]

-- Which operation a resumption ran.
data Resumed (config : Config) (s : State) (cp : CapturePoint) (r : State) : Type 0 where
  acquired : posthandle_acquire s cp.id cp.addr ≡ ok r → Resumed config s cp r
  tried : (ret : ℕ) → posthandle_tryacquire s cp.id cp.addr ≡ ok (r, ret) → Resumed config s cp r
  released :
      cp.type_id ≡ event_mutex_release
      → posthandle_release config.strict s cp.id cp.addr ≡ ok r
      → Resumed config s cp r
  passed : r ≡ s → Resumed config s cp r

resume-Resumed :
    (config : Config) (s : State) (cp : CapturePoint) (r : State) (ret : Option ℕ)
    → resume config s cp ≡ ok (r, ret)
    → Resumed config s cp r
unfolding resume
resume-Resumed config s cp r ret h = elim (Bool-cases (cp.type_id == event_mutex_acquire)) [
  | inl a ↦ elim (Outcome-cases (posthandle_acquire s cp.id cp.addr)) [
    | inl (f, stops) ↦ absurd (ground arith)
    | inr (q, goes) ↦ let same : q ≡ r = ground arith in acquired (rw (← same) goes)
  ]
  | inr n ↦ elim (Bool-cases (cp.type_id == event_mutex_tryacquire)) [
    | inl t ↦ elim (Outcome-cases (posthandle_tryacquire s cp.id cp.addr)) [
      | inl (f, stops) ↦ absurd (ground arith)
      | inr ((q, v), goes) ↦ let same : q ≡ r = ground arith in tried v (rw (← same) goes)
    ]
    | inr n' ↦ elim (Bool-cases (cp.type_id == event_mutex_release)) [
      | inl l ↦ elim (Outcome-cases (posthandle_release config.strict s cp.id cp.addr)) [
        | inl (f, stops) ↦ absurd (ground arith)
        | inr (q, goes) ↦
            let same : q ≡ r = ground arith in released (ground arith) (rw (← same) goes)
      ]
      | inr n'' ↦ passed (ground arith)
    ]
  ]
]

-- Every step keeps the invariant.
pub Step-IsSound :
    (config : Config) (fuel : ℕ) (s r : State) → Step config fuel s r → IsSound s → IsSound r
Step-IsSound config fuel s r (captured cp e e' h) v =
    elim (handle_state config fuel s cp e r e' h) [
      | inl same ↦ rw same v
      | inr a ↦ acquire-IsSound s cp.id cp.addr r v a
    ]
Step-IsSound config fuel s r (resumed cp ret n h) v = elim (resume-Resumed config s cp r ret h) [
  | acquired a ↦ posthandle_acquire-IsSound s cp.id cp.addr r v n a
  | tried x a ↦ tryacquire-IsSound s cp.id cp.addr r x v n a
  | released _ a ↦ release-IsSound config.strict s cp.id cp.addr r v a
  | passed same ↦ rw same v
]

-- Every state that captures and resumptions by named tasks reach from the initial one is sound:
-- each mutex has an owner exactly while its count is positive, its waiter set is well formed, the
-- map has one item for a key, and the handler's own waiter set is empty.
pub Reach-IsSound : (config : Config) (fuel : ℕ) {s : State} → Reach config fuel s → IsSound s
Reach-IsSound config fuel start = initial-IsSound
Reach-IsSound config fuel (next {s} {r} reach step) =
    Step-IsSound config fuel s r step (Reach-IsSound config fuel reach)

pub owner_of-item : (s : State) (x : ℕ) → owner_of s x ≡ (item s x).owner
unfolding owner_of
owner_of-item s x = ground arith

-- Only the mutex at the address can change its owner.
pub owner_of-ne :
    (s : State) (addr : ℕ) (m : Mtx) (r : State)
    → Puts s addr m r
    → (x : ℕ) → owner_of r x ≡ (if addr == x then m.owner else owner_of s x)
unfolding owner_of
owner_of-ne s addr m r p x = ground (arith, p.found x)

pub owner_of-Drops :
    (s : State) (addr : ℕ) (r : State)
    → Drops s addr r
    → (x : ℕ) → owner_of r x ≡ (if addr == x then no_task else owner_of s x)
unfolding owner_of
owner_of-Drops s addr r p x = ground (arith, p.found x)

-- How an owner can change: taken by the task when nobody owns the mutex, or given up by a release.
abbrev pub Handover : State → State → ℕ → Type 0
Handover s r x = (owner_of r x ≡ owner_of s x) ⊎ (owner_of s x ≡ no_task) ⊎ (owner_of r x ≡ no_task)

took :
    (s : State) (id addr : ℕ) (m : Mtx) (r : State) (x : ℕ)
    → may_take s id addr ≡ true
    → Puts s addr m r
    → m.owner ≡ id
    → Handover s r x
took s id addr m r x may p owner = ground (arith, owner_of-ne s addr m r p x, owner_of-item s addr)

try_Handover :
    (s : State) (id addr : ℕ) (r : State) (ret : ℕ)
    → IsSound s
    → id ≢ no_task
    → posthandle_tryacquire s id addr ≡ ok (r, ret)
    → (x : ℕ) → Handover s r x
try_Handover s id addr r ret v n a x =
    let (q, e, p) = tryacquire-Puts s id addr v n in
    let same : q ≡ r = ground arith in
    rw (← same) (elim (Bool-cases (may_take s id addr)) [
      | inl may ↦ took s id addr (taken (item s addr) id) q x may (rw may at p) refl
      | inr not_may ↦ inl (
          ground
            (arith, owner_of-ne s addr (item s addr) q (rw not_may at p) x, owner_of-item s addr))
    ])

release-Handover :
    (strict : Bool) (s : State) (id addr : ℕ) (r : State)
    → IsSound s
    → posthandle_release strict s id addr ≡ ok r
    → (x : ℕ) → Handover s r x
release-Handover strict s id addr r v a x = elim (release-Released strict s id addr r v a) [
  | unknown same _ ↦ inl (ap (λ t. owner_of t x) same)
  | forgotten p _ ↦ ground (arith, owner_of-Drops s addr r p x)
  | lowered m p _ _ o ↦ ground (arith, owner_of-ne s addr m r p x, o, owner_of-item s addr)
]

-- In one capture or resumption from a sound state no mutex passes from one owner to another: its
-- owner stays, or nobody owned it before, or nobody owns it after.
pub Step-Handover :
    (config : Config) (fuel : ℕ) (s r : State)
    → Step config fuel s r
    → IsSound s
    → (x : ℕ) → Handover s r x
Step-Handover config fuel s r (captured cp e e' h) v x =
    elim (handle_state config fuel s cp e r e' h) [
      | inl same ↦ inl (ap (λ t. owner_of t x) same)
      | inr a ↦
          let (m, p, owner, _, _, _) = acquire-Puts s cp.id cp.addr r v a in
          inl (ground (arith, owner_of-ne s cp.addr m r p x, owner, owner_of-item s cp.addr))
    ]
Step-Handover config fuel s r (resumed cp ret n h) v x = elim (resume-Resumed config s cp r ret h) [
  | acquired a ↦
      let (may, (m, p, owner, _, _)) = posthandle_acquire-Puts s cp.id cp.addr r v n a in
      took s cp.id cp.addr m r x may p owner
  | tried ret a ↦ try_Handover s cp.id cp.addr r ret v n a x
  | released _ a ↦ release-Handover config.strict s cp.id cp.addr r v a x
  | passed same ↦ inl (ap (λ t. owner_of t x) same)
]
