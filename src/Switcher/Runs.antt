-- ===== src/Switcher/Runs.antt =====
-- The runs of the switcher: tasks that arrive, end a wait or a sleep, and tasks that are woken.
use lotto.Base.{ℕ, ◌≡◌, ◌≢◌, Bool, true, false, List, [], ◌∷◌, ◌==◌, if◌then◌else◌, ok, elem}
use lotto.Base.Words.{no_task}
use lotto.Switcher.{
  Switcher, initial, Turn, waits, sleeps, returns, arrive, recheck, rise, wake, abort,
}

-- `inside` lists the tasks in `switcher_yield`, and `asleep` says which of them sleep.
pub record System : Type 0 where
  pub shared : Switcher
  pub inside : List ℕ
  pub asleep : ℕ → Bool

abbrev pub begin : System
begin = record { shared = initial; inside = []; asleep = λ x. false }

abbrev pub erase : ℕ → List ℕ → List ℕ
erase id [] = []
erase id (x ∷ l) = let rest = erase id l in if x == id then l else x ∷ rest

abbrev flag : (ℕ → Bool) → ℕ → Bool → ℕ → Bool
flag f id v x = if id == x then v else f x

pub data Event : Type 0 where
  woken returned : ℕ → Event
  quiet : Event

-- The system after a task's turn, and what others see of it.
abbrev pub after : System → ℕ → Switcher × Turn → System
after s id (w, waits b) = record { shared = w; inside = s.inside; asleep = flag s.asleep id false }
after s id (w, sleeps) = record { shared = w; inside = s.inside; asleep = flag s.asleep id true }
after s id (w, returns status) = record {
  shared = w;
  inside = erase id s.inside;
  asleep = flag s.asleep id false;
}

abbrev pub event_of : ℕ → Turn → Event
event_of id (returns status) = returned id
event_of id _ = quiet

abbrev pub entered : System → ℕ → System
entered s id = record s { inside = id ∷ s.inside }

pub data Step (s : System) (e : Event) (r : System) : Type 0 where
  arrives :
      (id : ℕ) (refused : Bool)
      → id ≢ no_task
      → elem id s.inside ≡ false
      → e ≡ event_of id (arrive s.shared id refused).1
      → r ≡ after (entered s id) id (arrive s.shared id refused)
      → Step s e r
  rechecks :
      (id : ℕ) (refused : Bool)
      → id ≢ no_task
      → elem id s.inside ≡ true
      → s.asleep id ≡ false
      → e ≡ event_of id (recheck s.shared id refused).1
      → r ≡ after s id (recheck s.shared id refused)
      → Step s e r
  rises :
      (id : ℕ) (refused : Bool)
      → id ≢ no_task
      → elem id s.inside ≡ true
      → s.asleep id ≡ true
      → e ≡ event_of id (rise s.shared id refused).1
      → r ≡ after s id (rise s.shared id refused)
      → Step s e r
  wakes :
      (id slack : ℕ) (w : Switcher) (signalled : List ℕ)
      → wake s.shared id slack ≡ ok (w, signalled)
      → e ≡ woken id
      → r ≡ record s { shared = w }
      → Step s e r
  aborts : e ≡ quiet → r ≡ record s { shared = abort s.shared } → Step s e r

-- The log has the latest event first.
pub data Run (s : System) : List Event → System → Type 0 where
  stop : {log : List Event} {r : System} → log ≡ [] → r ≡ s → Run s log r
  more :
      {log before : List Event} {m r : System} {e : Event}
      → Run s before m
      → Step m e r
      → log ≡ e ∷ before
      → Run s log r
