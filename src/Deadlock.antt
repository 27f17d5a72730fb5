-- ===== src/Deadlock.antt =====
-- The deadlock handler of modules/deadlock/src/handler.c: which tasks hold or wait for each
-- resource, and the search for a cycle of tasks and resources.
--
-- `owner_at` is `mutex_owner` of the mutex handler (modules/mutex/src/handler.c). A pointer to an item of a map is its
-- key. The recursion of the search runs on fuel; its loop along a bag runs on the bag's size.
mod Alike
mod Restore
mod Keys
mod Search
mod Tests
use mathlib.Core.Bool.{Bool, true, false, not, ◌&&◌, ◌||◌}
use lotto.Base.{
  ℕ, zero, suc, ◌+◌, List, [], ◌∷◌, Option, none, some, ltb, ◌==◌, if◌then◌else◌, Outcome, ok,
  fault, out_of_fuel, ◌>>=◌, ◌>>◌, assert,
}
use lotto.Base.Words.{no_task, any_task}
use lotto.Reason.{Reason, rsrc_deadlock}
use lotto.Tidbag
use lotto.Tidbag.{Tidbag, has}
use lotto.Map
use lotto.Map.{Map}
use lotto.Map.Items.{find_or_put, read, put}

-- `struct rsrc`
pub record Rsrc : Type 0 where
  pub tasks : Tidbag
  pub owner : ℕ

-- `struct handler_deadlock`
pub record State : Type 0 where
  pub resources : Map Rsrc
  pub lost : Map Rsrc

-- `deadlock_config_t`
pub record Config : Type 0 where
  pub enabled : Bool
  pub lost_resource_check : Bool
  pub extra_release_check : Bool

abbrev pub zeroed : Rsrc
zeroed = record {
  tasks = Tidbag.fini (record { allocated = false; tasks = []; capacity = 0 });
  owner = no_task;
}

abbrev pub fresh : Rsrc
fresh = record { tasks = Tidbag.init; owner = no_task }

-- `_rsrc_init`
unfoldable pub rsrc_init : Map Rsrc → ℕ → Outcome (Map Rsrc)
rsrc_init m addr = find_or_put m zeroed fresh addr

-- A write to the bag of an item
abbrev pub put_tasks : Map Rsrc → ℕ → Rsrc → Tidbag → Map Rsrc
put_tasks m key r b = put m key (record r { tasks = b })

-- `_acquiring`
unfoldable pub acquiring : (ℕ → ℕ) → State → ℕ → ℕ → Outcome State
acquiring owner_at s id addr = do
  m ← rsrc_init s.resources addr
  r ← read m addr
  b ← Tidbag.insert r.tasks id
  ok (record s { resources = put m addr (record { tasks = b; owner = owner_at addr }) })

-- `_released`
unfoldable pub released : Config → (ℕ → ℕ) → State → ℕ → ℕ → Outcome (State × Bool)
released config owner_at s id addr = elim (Map.find s.resources addr) [
  | none ↦ ok (s, not config.extra_release_check)
  | some r ↦ do
    b ← Tidbag.remove r.tasks id
    let m =
        if Tidbag.size b == 0
        then Map.deregister s.resources addr
        else put s.resources addr (record { tasks = b; owner = owner_at addr })
    ok (record s { resources = m }, true)
]

-- Some task of the bag is not `tid`.
unfoldable pub any_other : ℕ → List ℕ → Bool
any_other tid [] = false
any_other tid (cur ∷ l) = let rest = any_other tid l in if not (cur == tid) then true else rest

abbrev pub keys_of : List (ℕ × Rsrc) → List ℕ
keys_of [] = []
keys_of ((k, r) ∷ l) = k ∷ keys_of l

-- The body of the loop along the resources, for a resource that holds the task or not: `step` is the
-- recursive call for a task and a resource, `rest` the rest of the loop. The call writes to bags
-- only, so the loop meets the resources that were there before.
unfoldable pub visit :
    (Map Rsrc → ℕ → ℕ → Outcome (Map Rsrc × Bool))
    → (Map Rsrc → Outcome (Map Rsrc × Bool))
    → ℕ
    → ℕ
    → Map Rsrc
    → Rsrc
    → Bool
    → Outcome (Map Rsrc × Bool)
visit step rest cur key m r false = rest m
visit step rest cur key m r true = do
  without ← Tidbag.remove r.tasks cur
  (m', res) ← step (put_tasks m key r without) cur key
  r' ← read m' key
  back ← Tidbag.insert r'.tasks cur
  elim res [ true ↦ ok (put_tasks m' key r' back, true) | false ↦ rest (put_tasks m' key r' back) ]

unfoldable pub along_resources :
    (Map Rsrc → ℕ → ℕ → Outcome (Map Rsrc × Bool))
    → List ℕ
    → ℕ
    → Map Rsrc
    → Outcome (Map Rsrc × Bool)
along_resources step [] cur m = ok (m, false)
along_resources step (key ∷ keys) cur m = do
  r ← read m key
  visit step (along_resources step keys cur) cur key m r (has r.tasks cur)

-- The body of the loop along the tasks, for a task that is the asking one or another
unfoldable pub other_task :
    (Map Rsrc → ℕ → ℕ → Outcome (Map Rsrc × Bool))
    → (Map Rsrc → Outcome (Map Rsrc × Bool))
    → ℕ
    → Map Rsrc
    → Bool
    → Outcome (Map Rsrc × Bool)
other_task step rest cur m true = rest m
other_task step rest cur m false = do
  (m', res) ← along_resources step (keys_of m.items) cur m
  elim res [ true ↦ ok (m', true) | false ↦ rest m' ]

unfoldable pub task_at :
    (Map Rsrc → ℕ → ℕ → Outcome (Map Rsrc × Bool))
    → (Map Rsrc → Outcome (Map Rsrc × Bool))
    → ℕ
    → Map Rsrc
    → Rsrc
    → ℕ
    → Bool
    → Outcome (Map Rsrc × Bool)
task_at step rest tid m r idx false = ok (m, false)
task_at step rest tid m r idx true = do
  cur ← Tidbag.get r.tasks idx
  other_task step rest cur m (cur == tid)

-- The loop along the tasks of the resource `key`, from `idx` on
unfoldable pub along_tasks :
    (Map Rsrc → ℕ → ℕ → Outcome (Map Rsrc × Bool))
    → ℕ
    → ℕ
    → ℕ
    → ℕ
    → Map Rsrc
    → Outcome (Map Rsrc × Bool)
along_tasks step tid key zero idx m = fault out_of_fuel
along_tasks step tid key (suc n) idx m = do
  r ← read m key
  task_at step (along_tasks step tid key n (suc idx)) tid m r idx (ltb idx (Tidbag.size r.tasks))

-- `_check_deadlock_iter`
unfoldable pub check_deadlock_iter : ℕ → ℕ → Map Rsrc → ℕ → ℕ → Outcome (Map Rsrc × Bool)
check_deadlock_iter zero cycle m tid key = fault out_of_fuel
check_deadlock_iter (suc fuel) cycle m tid key =
    let step = check_deadlock_iter fuel (if cycle == no_task then tid else cycle) in
    if tid == no_task
    then ok (m, false)
    else if cycle == tid
    then ok (m, true)
    else elim (Map.find m key) [
      | none ↦ ok (m, false)
      | some r ↦ elim (any_other tid r.tasks.tasks) [
        | false ↦ ok (m, false)
        | true ↦ along_tasks step tid key (suc (Tidbag.size r.tasks)) 0 m
      ]
    ]

-- `_check_deadlock`
unfoldable pub check_deadlock : ℕ → State → ℕ → ℕ → Outcome (State × Bool)
check_deadlock fuel s tid key = do
  (m, res) ← check_deadlock_iter fuel no_task s.resources tid key
  ok (record s { resources = m }, res)

-- `_is_lost`: what it logs of the first lost resource is left out, but the bag is read.
unfoldable pub is_lost : State → ℕ → Outcome Bool
is_lost s addr = elim (Map.find s.lost addr) [
  | none ↦ ok false
  | some found ↦ elim s.lost.items [
    | [] ↦ ok true
    | (k, r) ∷ more ↦ do _ ← Tidbag.get r.tasks 0; ok true
  ]
]

-- The loop of `_mark_lost`; the answer is that of the last resource of the task.
unfoldable pub mark_lost_in : Config → ℕ → List ℕ → State → Bool → Outcome (State × Bool)
mark_lost_in config id [] s ret = ok (s, ret)
mark_lost_in config id (addr ∷ keys) s ret = do
  r ← read s.resources addr
  elim (has r.tasks id) [
    | false ↦ mark_lost_in config id keys s ret
    | true ↦ do
      b ← Tidbag.remove r.tasks id
      m ← rsrc_init s.lost addr
      lost ← read m addr
      b' ← Tidbag.insert lost.tasks id
      mark_lost_in config id keys
          (record { resources = put_tasks s.resources addr r b; lost = put_tasks m addr lost b' })
          (ltb 0 (Tidbag.size b) || config.lost_resource_check)
  ]

unfoldable pub mark_lost : Config → State → ℕ → Outcome (State × Bool)
mark_lost config s id = mark_lost_in config id (keys_of s.resources.items) s false

-- The events of the handler; the payload's address, and whether the try succeeded
pub data Event : Type 0 where
  mutex_acquire : ℕ → Event
  mutex_tryacquire : ℕ → Bool → Event
  rsrc_acquiring : ℕ → Event
  mutex_release : ℕ → Event
  rsrc_released : ℕ → Event
  task_fini : Event
  any_other_event : Event

-- `cp->vid` names the task, or hides the event, or is not set.
unfoldable pub task_of : ℕ → ℕ → ℕ
task_of id vid = if vid == no_task then id else vid

-- The `switch` of `_deadlock_handle`: the state, and whether a deadlock is reported
unfoldable pub on_event : ℕ → Config → (ℕ → ℕ) → State → ℕ → Event → Outcome (State × Bool)
on_event fuel config owner_at s tid (mutex_acquire addr) = do
  (s₁, cycle) ← check_deadlock fuel s tid addr
  lost ← is_lost s₁ addr
  s₂ ← acquiring owner_at s₁ tid addr
  ok (s₂, cycle || lost)
on_event fuel config owner_at s tid (mutex_tryacquire addr taken) = do
  lost ← is_lost s addr
  s₁ ← if taken then acquiring owner_at s tid addr else ok s
  ok (s₁, lost)
on_event fuel config owner_at s tid (rsrc_acquiring addr) = do
  (s₁, cycle) ← check_deadlock fuel s tid addr
  lost ← is_lost s₁ addr
  ok (s₁, cycle || lost)
on_event fuel config owner_at s tid (mutex_release addr) = do
  (s₁, known) ← released config owner_at s tid addr
  ok (s₁, not known)
on_event fuel config owner_at s tid (rsrc_released addr) = do
  (s₁, known) ← released config owner_at s tid addr
  ok (s₁, not known)
on_event fuel config owner_at s tid task_fini = mark_lost config s tid
on_event fuel config owner_at s tid any_other_event = ok (s, false)

abbrev pub is_deadlock : Reason → Bool
is_deadlock rsrc_deadlock = true
is_deadlock r = false

-- `_deadlock_handle`: the state, the decision's reason, and whether the deadlock is published
unfoldable pub handle :
    ℕ → Config → (ℕ → ℕ) → State → Bool → ℕ → ℕ → Event → Reason → Outcome (State × (Reason × Bool))
handle fuel config owner_at s skip id vid e reason =
    if skip || not config.enabled || (vid == any_task) then ok (s, (reason, false)) else (do
      assert (not (task_of id vid == no_task))
      (s', found) ← on_event fuel config owner_at s (task_of id vid) e
      let reason' = if found then rsrc_deadlock else reason
      ok (s', (reason', is_deadlock reason')))
