-- ===== src/Deadlock/Search.antt =====
-- The search for a cycle comes to an end and leaves the bags as they were (modules/deadlock/src/handler.c).
use lotto.Base.{
  ℕ, zero, suc, ◌+◌, ◌≤◌, ◌<◌, ◌≡◌, refl, ap, ◌∙◌, Bool, true, false, List, [], ◌∷◌, ◌++◌, some,
  ◌==◌, if◌then◌else◌, ltb, leb, get_or, arith, tests, Outcome, ok, Bool-cases, Option-cases, inl,
  inr, Returns, Returns-bind, Returns_mono, Returned,
}
use lotto.Base.Words.{no_task}
use lotto.Tidbag
use lotto.Tidbag.{Tidbag, size, has, remove, insert}
use lotto.Map.{Map, lookup, modify}
use lotto.Map.Items.{read, read-found}
use lotto.Deadlock.{
  Rsrc, keys_of, put_tasks, visit, along_resources, other_task, task_at, along_tasks, State,
  check_deadlock_iter, check_deadlock, any_other,
}
use lotto.Deadlock.Alike.{
  HasRoom, Alike, AllRoom, total, Alike-refl, Alike-trans, Alike-AllRoom, Alike-total, Alike-lookup,
  Alike-write, AllRoom-lookup, AllRoom-write, total-write,
}
use lotto.Deadlock.Restore.{remove-Without, restored, Without-HasRoom}
use lotto.Deadlock.Keys.{Found, Found-Alike, Found-keys_of, lookup-written}

-- The call keeps all bags alike.
abbrev Keeps : (Map Rsrc → ℕ → ℕ → Outcome (Map Rsrc × Bool)) → ℕ → Type 0
Keeps step bound =
    (m : Map Rsrc) (tid key : ℕ)
    → AllRoom m.items
    → total m.items < bound
    → Returns (step m tid key) (λ (m', res). Alike m.items m'.items)

along_skip :
    (step : Map Rsrc → ℕ → ℕ → Outcome (Map Rsrc × Bool)) (keys : List ℕ) (key cur : ℕ)
    (m : Map Rsrc) (r : Rsrc)
    → read m key ≡ ok r
    → has r.tasks cur ≡ false
    → along_resources step (key ∷ keys) cur m ≡ along_resources step keys cur m
unfolding along_resources visit
along_skip step keys key cur m r e absent =
    rw e (ap (λ b. visit step (along_resources step keys cur) cur key m r b) absent)

visit-true :
    (step : Map Rsrc → ℕ → ℕ → Outcome (Map Rsrc × Bool))
    (rest : Map Rsrc → Outcome (Map Rsrc × Bool)) (key cur : ℕ) (m : Map Rsrc) (r : Rsrc)
    (without : Tidbag) (m' : Map Rsrc) (res : Bool) (r' : Rsrc) (back : Tidbag)
    → remove r.tasks cur ≡ ok without
    → step (put_tasks m key r without) cur key ≡ ok (m', res)
    → read m' key ≡ ok r'
    → insert r'.tasks cur ≡ ok back
    → visit step rest cur key m r true ≡ (elim res [
      | true ↦ ok (put_tasks m' key r' back, true)
      | false ↦ rest (put_tasks m' key r' back)
    ])
unfolding visit
visit-true step rest key cur m r without m' res r' back removed call e' inserted =
    rw (removed, call, e', inserted) refl

along_visit :
    (step : Map Rsrc → ℕ → ℕ → Outcome (Map Rsrc × Bool)) (keys : List ℕ) (key cur : ℕ)
    (m : Map Rsrc) (r : Rsrc) (without : Tidbag) (m' : Map Rsrc) (res : Bool) (r' : Rsrc)
    (back : Tidbag)
    → read m key ≡ ok r
    → has r.tasks cur ≡ true
    → remove r.tasks cur ≡ ok without
    → step (put_tasks m key r without) cur key ≡ ok (m', res)
    → read m' key ≡ ok r'
    → insert r'.tasks cur ≡ ok back
    → along_resources step (key ∷ keys) cur m ≡ (elim res [
      | true ↦ ok (put_tasks m' key r' back, true)
      | false ↦ along_resources step keys cur (put_tasks m' key r' back)
    ])
unfolding along_resources
along_visit step keys key cur m r without m' res r' back e held removed call e' inserted = rw e (
    ap (λ b. visit step (along_resources step keys cur) cur key m r b) held
    ∙ visit-true step (along_resources step keys cur) key cur m r without m' res r' back removed
        call e' inserted)

along_resources-Alike :
    (step : Map Rsrc → ℕ → ℕ → Outcome (Map Rsrc × Bool)) (bound : ℕ)
    → Keeps step bound
    → (keys : List ℕ) (cur : ℕ) (m : Map Rsrc) → AllRoom m.items
    → total m.items ≤ bound
    → Found keys m.items
    → Returns (along_resources step keys cur m) (λ (m', res). Alike m.items m'.items)
unfolding along_resources modify
along_resources-Alike step bound keeps [] cur m room fits f = Alike-refl m.items
along_resources-Alike step bound keeps (key ∷ keys) cur m room fits ((r, e), f) =
    elim (Bool-cases (has r.tasks cur)) [
      | inr absent ↦
          rw (along_skip step keys key cur m r (read-found m key r e) absent)
            (along_resources-Alike step bound keeps keys cur m room fits f)
      | inl held ↦
          let h = AllRoom-lookup key m.items r room e in
          let (without, removed, w) = remove-Without r.tasks cur h held in
          let changed : Rsrc = record r { tasks = without } in
          let m₁ = put_tasks m key r without in
          let ((m', res), call, alike) =
            Returned (λ (m', res). Alike m₁.items m'.items) (step m₁ cur key)
              (keeps m₁ cur key
                (AllRoom-write key m.items changed room (Without-HasRoom r.tasks cur without h w))
                (omega (arith, fits, total-write key m.items r changed e w.sizes))) in
          let (r', found', same, owners) =
            Alike-lookup key m₁.items m'.items changed alike
              (lookup-written key m.items r changed e) in
          let (inserted, back) = restored r.tasks without r'.tasks cur h w same in
          let m₃ = put_tasks m' key r' (record r'.tasks { tasks = r'.tasks.tasks ++ cur ∷ [] }) in
          let all =
            Alike-write key m.items m'.items r changed
              (record r' { tasks = record r'.tasks { tasks = r'.tasks.tasks ++ cur ∷ [] } }) e alike
              back owners in
          rw
            (along_visit step keys key cur m r without m' res r'
              (record r'.tasks { tasks = r'.tasks.tasks ++ cur ∷ [] }) (read-found m key r e) held
              removed call (read-found m' key r' found') inserted)
            (elim (Bool-cases res) [
              | inl cycle ↦ rw cycle all
              | inr none_yet ↦ rw none_yet (
                  Returns_mono (λ (n, res). Alike m₃.items n.items)
                    (λ (n, res). Alike m.items n.items) (along_resources step keys cur m₃)
                    (along_resources-Alike step bound keeps keys cur m₃
                      (Alike-AllRoom m.items m₃.items all room)
                      (omega (arith, fits, Alike-total m.items m₃.items all))
                      (Found-Alike keys m.items m₃.items all f))
                    (λ result rest. Alike-trans m.items m₃.items result.0.items all rest))
            ])
    ]

get_inside :
    (b : Tidbag) (idx : ℕ) → HasRoom b → idx < size b → (cur : ℕ) × (Tidbag.get b idx ≡ ok cur)
unfolding Tidbag.get
get_inside b idx h inside =
    let some_of : (size b == 0) ≡ false = ground arith in
    let in_range : leb (size b) idx ≡ false = ground arith in
    (get_or b.tasks idx 0, rw (some_of, h.backed, in_range) refl)

-- The rest of a loop keeps all bags alike, from every map that is like `m`.
abbrev Continues : (Map Rsrc → Outcome (Map Rsrc × Bool)) → Map Rsrc → Type 0
Continues rest m =
    (n : Map Rsrc) → Alike m.items n.items → Returns (rest n) (λ (n', res). Alike m.items n'.items)

other_task-Alike :
    (step : Map Rsrc → ℕ → ℕ → Outcome (Map Rsrc × Bool)) (bound : ℕ)
    → Keeps step bound
    → (rest : Map Rsrc → Outcome (Map Rsrc × Bool)) (cur : ℕ) (m : Map Rsrc) (same : Bool)
    → AllRoom m.items
    → total m.items ≤ bound
    → Continues rest m
    → Returns (other_task step rest cur m same) (λ (m', res). Alike m.items m'.items)
unfolding other_task
other_task-Alike step bound keeps rest cur m true room fits continues =
    continues m (Alike-refl m.items)
other_task-Alike step bound keeps rest cur m false room fits continues =
    Returns-bind (λ (m', res). Alike m.items m'.items) (λ (m', res). Alike m.items m'.items)
      (along_resources step (keys_of m.items) cur m)
      (λ (m', res). elim res [ true ↦ ok (m', true) | false ↦ rest m' ])
      (along_resources-Alike step bound keeps (keys_of m.items) cur m room fits
        (Found-keys_of m.items))
      (λ (m', res) alike. elim (Bool-cases res) [
        | inl cycle ↦ rw cycle alike
        | inr none_yet ↦ rw none_yet (continues m' alike)
      ])

along_tasks-Alike :
    (step : Map Rsrc → ℕ → ℕ → Outcome (Map Rsrc × Bool)) (bound : ℕ)
    → Keeps step bound
    → (tid key n idx : ℕ) (m : Map Rsrc) (r : Rsrc) → AllRoom m.items
    → total m.items ≤ bound
    → lookup key m.items ≡ some r
    → idx ≤ size r.tasks
    → size r.tasks < n + idx
    → Returns (along_tasks step tid key n idx m) (λ (m', res). Alike m.items m'.items)
unfolding along_tasks task_at
along_tasks-Alike step bound keeps tid key zero idx m r room fits e le lt = absurd (omega arith)
along_tasks-Alike step bound keeps tid key (suc n) idx m r room fits e le lt =
    rw (read-found m key r e) (elim (Bool-cases (ltb idx (size r.tasks))) [
      | inr over ↦ rw over (Alike-refl m.items)
      | inl inside ↦
          let (cur, got) =
            get_inside r.tasks idx (AllRoom-lookup key m.items r room e) (omega (tests, inside)) in
          rw (inside, got)
            (other_task-Alike step bound keeps (along_tasks step tid key n (suc idx)) cur m
              (cur == tid) room fits
              (λ k alike.
                let (r', e', same, owners) = Alike-lookup key m.items k.items r alike e in
                Returns_mono (λ (m', res). Alike k.items m'.items)
                  (λ (m', res). Alike m.items m'.items) (along_tasks step tid key n (suc idx) k)
                  (along_tasks-Alike step bound keeps tid key n (suc idx) k r'
                    (Alike-AllRoom m.items k.items alike room)
                    (omega (arith, fits, Alike-total m.items k.items alike)) e'
                    (ground (arith, same.sizes)) (omega (arith, lt, same.sizes)))
                  (λ result rest. Alike-trans m.items k.items result.0.items alike rest)))
    ])

check_deadlock_iter-Alike :
    (fuel cycle : ℕ) (m : Map Rsrc) (tid key : ℕ)
    → AllRoom m.items
    → total m.items < fuel
    → Returns (check_deadlock_iter fuel cycle m tid key) (λ (m', res). Alike m.items m'.items)
unfolding check_deadlock_iter
check_deadlock_iter-Alike zero cycle m tid key room fits = absurd (omega arith)
check_deadlock_iter-Alike (suc fuel) cycle m tid key room fits =
    elim (Bool-cases (tid == no_task)) [
      | inl nobody ↦ rw nobody (Alike-refl m.items)
      | inr somebody ↦ elim (Bool-cases (cycle == tid)) [
        | inl closed ↦ rw (somebody, closed) (Alike-refl m.items)
        | inr on_way ↦ elim (Option-cases (lookup key m.items)) [
          | inl unknown ↦ rw (somebody, on_way, unknown) (Alike-refl m.items)
          | inr (r, e) ↦ elim (Bool-cases (any_other tid r.tasks.tasks)) [
            | inr alone ↦ rw (somebody, on_way, e, alone) (Alike-refl m.items)
            | inl shared ↦
                rw (somebody, on_way, e, shared)
                  (along_tasks-Alike
                    (check_deadlock_iter fuel (if cycle == no_task then tid else cycle)) fuel
                    (λ n t k h small.
                      check_deadlock_iter-Alike fuel (if cycle == no_task then tid else cycle) n t k
                        h small)
                    tid key (suc (size r.tasks)) 0 m r room (omega arith) e (omega arith)
                    (omega arith))
          ]
        ]
      ]
    ]

-- If each bag of resources has an array that is allocated, below 2^64 and large enough, the search
-- for a cycle returns, with fuel above the number of tasks in all bags. Each resource then has the
-- owner it had and the tasks it had, as often as before and in whatever order, and the lost
-- resources are the same.
pub check_deadlock-Alike :
    (fuel : ℕ) (s : State) (tid key : ℕ)
    → AllRoom s.resources.items
    → total s.resources.items < fuel
    → Returns
        (check_deadlock fuel s tid key)
        (λ (t, res). Alike s.resources.items t.resources.items × (t.lost ≡ s.lost))
unfolding check_deadlock
check_deadlock-Alike fuel s tid key room fits =
    Returns-bind (λ (m, res). Alike s.resources.items m.items)
      (λ (t, res). Alike s.resources.items t.resources.items × (t.lost ≡ s.lost))
      (check_deadlock_iter fuel no_task s.resources tid key)
      (λ (m, res). ok (record s { resources = m }, res))
      (check_deadlock_iter-Alike fuel no_task s.resources tid key room fits)
      (λ (m, res) alike. (alike, refl))
