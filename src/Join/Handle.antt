-- ===== src/Join/Handle.antt =====
-- The capture handler `_join_handle` of modules/join/src/handler.c.
use lotto.Base.{
  ℕ, Bool, true, not, Option, none, some, List, [], ◌==◌, if◌then◌else◌, Outcome, ok, ◌>>=◌, ◌>>◌,
  assert,
}
use lotto.Base.Words.{no_task}
use lotto.Event.{Decision}
use lotto.Map.{tid_find}
use lotto.Tidset.Keys.{remove_all_keys}
use lotto.Join.{State, Write, start, join, detach, finish, exit_with, is_none}

pub data Event : Type 0 where
  task_init : ℕ → Bool → Event
  task_join : ℕ → ℕ → ℕ → Event
  task_detach : ℕ → ℕ → Event
  task_fini : Option ℕ → Event
  other_event : Event

-- The `switch` of the handler. `task_fini` carries the value that the thread exits with, if any.
unfoldable pub on_event : ℕ → State → ℕ → Event → Outcome (State × List Write)
unfolding start join detach finish exit_with
on_event fuel s id (task_init thread detached) = do s' ← start s id thread detached; ok (s', [])
on_event fuel s id (task_join thread value_ptr ret) = join fuel s id thread value_ptr ret
on_event fuel s id (task_detach thread ret) = detach s thread ret
on_event fuel s id (task_fini value) = do
  s' ← elim value [ none ↦ ok s | some v ↦ exit_with s id v ]
  finish s' id
on_event fuel s id other_event = ok (s, [])

-- The handler after the `switch`.
unfoldable pub judge : State → List Write → ℕ → Decision → Outcome (State × List Write × Decision)
unfolding tid_find remove_all_keys
judge s writes id e = if e.skip then ok (s, writes, e) else (do
  tset ← remove_all_keys e.tset s.waitees
  waits ← tid_find s.waitees id
  if is_none waits then ok (s, writes, record e { tset = tset }) else (do
    assert (not e.filtered)
    ok (s, writes, record e { tset = tset; is_chpt = true; filtered = true })))

unfoldable pub handle : ℕ → State → ℕ → Event → Decision → Outcome (State × List Write × Decision)
unfolding on_event judge
handle fuel s id event e = do
  assert (not (id == no_task))
  (s', writes) ← on_event fuel s id event
  judge s' writes id e
