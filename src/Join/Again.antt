-- ===== src/Join/Again.antt =====
-- A thread that is joined again (`_join` of modules/join/src/handler.c).
use lotto.Base.{
  ℕ, suc, ◌≡◌, ◌≢◌, ◌∙◌, refl, sym, ap, true, false, Option, none, some, List, [], ◌∷◌, ◌++◌, ◌==◌,
  if◌then◌else◌, ok, fault, assert_failed, arith, Returns, Returns_of,
}
use lotto.Base.Words.{no_task}
use lotto.Map.{find, deregister, tid_find, tid_deregister}
use lotto.Map.Laws.{IsValid, deregister_lem}
use lotto.Join.{Pthread, State, Write, collect, enqueue, join}
use lotto.Join.Waits.{reaches_idle}
use lotto.Join.Joining.{joining, join_known}

-- The thread behind `pthread` has ended, and its task waits for nobody.
pub record HasEnded (s : State) (pthread waitee : ℕ) (pt : Pthread) : Type 0 where
  pub keyed : IsValid s.pthreads
  pub task : find s.tasks pthread ≡ some waitee
  pub thread : find s.pthreads waitee ≡ some pt
  pub ended : pt.terminated ≡ true
  pub free : find s.waitees waitee ≡ none
  pub named : waitee ≢ no_task

-- The state after the first join.
abbrev joined : State → ℕ → State
joined s waitee = record s { pthreads = deregister s.pthreads waitee }

collected :
    (s : State) (tid pthread value_ptr ret waitee : ℕ) (pt : Pthread)
    → waitee ≢ no_task
    → tid ≢ waitee
    → (w : List Write) × (collect s tid pthread value_ptr ret waitee waitee pt
        ≡ ok (joined s waitee, w))
unfolding tid_deregister
collected s tid pthread value_ptr ret waitee pt n other =
    let k : (waitee == no_task) ≡ false = ground arith in
    let q : (waitee == tid) ≡ false = ground arith in
    (
      (if value_ptr == 0 then [] else (value_ptr, pt.value_ptr) ∷ []) ++ (ret, 0) ∷ [],
      rw (k, q) refl,
    )

first_join :
    (fuel : ℕ) (s : State) (tid pthread value_ptr ret waitee : ℕ) (pt : Pthread)
    → HasEnded s pthread waitee pt
    → tid ≢ waitee
    → (w : List Write) × (joining (suc fuel) s tid pthread value_ptr ret waitee
        ≡ ok (joined s waitee, w))
unfolding tid_find
first_join fuel s tid pthread value_ptr ret waitee pt v other =
    let (w, e) = collected s tid pthread value_ptr ret waitee pt v.named other in
    let stops = reaches_idle fuel s.waitees tid waitee (λ q. other (sym q)) v.named v.free in
    let k : (waitee == no_task) ≡ false = nonzero waitee v.named in
    (
      w,
      rw (stops, k, v.thread)
          (ap
              (λ b.
                if b
                then collect s tid pthread value_ptr ret waitee waitee pt
                else enqueue s tid value_ptr ret waitee pt)
              v.ended
            ∙ e),
    )
  where
    nonzero : (x : ℕ) → x ≢ no_task → (x == no_task) ≡ false
    nonzero x n = ground arith

second_join :
    (fuel : ℕ) (s : State) (tid pthread value_ptr ret waitee : ℕ)
    → find s.pthreads waitee ≡ none
    → find s.waitees waitee ≡ none
    → waitee ≢ no_task
    → tid ≢ waitee
    → joining (suc fuel) s tid pthread value_ptr ret waitee ≡ fault assert_failed
unfolding tid_find
second_join fuel s tid pthread value_ptr ret waitee gone free n other =
    let stops = reaches_idle fuel s.waitees tid waitee (λ q. other (sym q)) n free in
    let k : (waitee == no_task) ≡ false = nonzero waitee n in rw (stops, k, gone) refl
  where
    nonzero : (x : ℕ) → x ≢ no_task → (x == no_task) ≡ false
    nonzero x n = ground arith

-- If the thread behind a known pthread has ended and its task waits for nobody, a join by another
-- task returns, and after it a join of the same pthread by any task but the ended one fails an
-- assertion: the entry of `tasks` has stayed.
pub join-again :
    (fuel : ℕ) (s : State) (tid pthread value_ptr ret waitee : ℕ) (pt : Pthread)
    (tid' value_ptr' ret' : ℕ)
    → HasEnded s pthread waitee pt
    → tid ≢ waitee
    → tid' ≢ waitee
    → Returns
        (join (suc fuel) s tid pthread value_ptr ret)
        (λ r. join (suc fuel) r.0 tid' pthread value_ptr' ret' ≡ fault assert_failed)
join-again fuel s tid pthread value_ptr ret waitee pt tid' value_ptr' ret' v other other' =
    let (w, e) = first_join fuel s tid pthread value_ptr ret waitee pt v other in
    let gone : find (deregister s.pthreads waitee) waitee ≡ none =
      (deregister_lem s.pthreads waitee v.keyed).1 waitee ∙ taken waitee _ in
    Returns_of _ {m = join (suc fuel) s tid pthread value_ptr ret} (joined s waitee, w)
      (join_known (suc fuel) s tid pthread value_ptr ret waitee v.task ∙ e)
      (join_known (suc fuel) (joined s waitee) tid' pthread value_ptr' ret' waitee v.task
        ∙ second_join fuel (joined s waitee) tid' pthread value_ptr' ret' waitee gone v.free v.named
            other')
  where
    taken : (x : ℕ) (o : Option Pthread) → (if x == x then none else o) ≡ none
    taken x o = ground arith
