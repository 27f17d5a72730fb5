-- ===== src/Rwlock/Waiting.antt =====
-- Which tasks the handler of reader-writer locks takes from the sequencer's set.
use lotto.Base.{
  ℕ, ◌≡◌, Bool, false, not, some, List, [], ◌∷◌, ltb, ◌&&◌, ◌||◌, if◌then◌else◌, ok, arith,
  Bool-cases, inl, inr, refl, IsDistinct, ◌∙◌,
}
use lotto.Map.{lookup}
use lotto.Map.Laws.{keys, lookup-none}
use lotto.Tidset
use lotto.Tidset.{Tidset, has, subtract}
use lotto.Tidset.Valid
use lotto.Tidset.Members.{subtract_lem}
use lotto.Rwlock.{Lock, State, is_write_locked, should_wait, should_wait_in}
use lotto.Rwlock.Handle.{filter_waiters}
use lotto.Rwlock.Valid.{IsSound, IsSoundLock, is_read_locked-eq}

-- The lock keeps the task waiting.
abbrev pub blocks : Lock → ℕ → Bool
blocks l x =
    if is_write_locked l
    then has l.write_waiters x || has l.read_waiters x
    else (if ltb 0 l.readers.nitems
        then has l.write_waiters x
        else ltb 0 (Tidset.size l.write_waiters) && has l.read_waiters x)

abbrev pub any_blocks : List (ℕ × Lock) → ℕ → Bool
any_blocks [] x = false
any_blocks ((k, l) ∷ ls) x = blocks l x || any_blocks ls x

abbrev pub waits : State → ℕ → Bool
waits s x = any_blocks s.locks.items x

abbrev AllSound : List (ℕ × Lock) → Type 0
AllSound [] = Unit
AllSound ((k, l) ∷ ls) = IsSoundLock l × AllSound ls

items-AllSound :
    (ls : List (ℕ × Lock))
    → IsDistinct (keys ls)
    → ((addr : ℕ) (l : Lock) → lookup addr ls ≡ some l → IsSoundLock l)
    → AllSound ls
unfolding lookup
items-AllSound [] d h = tt
items-AllSound ((k, l) ∷ ls) d h = (
  h k l (ground arith),
  items-AllSound ls (λ x. ground (arith, d x))
      (λ addr m e. h addr m (ground (arith, d addr, lookup-none addr ls, e))),
)

should_wait_in-eq :
    (ls : List (ℕ × Lock)) (x : ℕ) → AllSound ls → should_wait_in ls x ≡ ok (any_blocks ls x)
unfolding should_wait_in
should_wait_in-eq [] x w = refl
should_wait_in-eq ((k, l) ∷ ls) x (w, ws) =
    ground (arith, is_read_locked-eq l w, should_wait_in-eq ls x ws)

-- The set after one lock.
abbrev without : Tidset → Lock → Tidset
without t l =
    if ltb 0 l.readers.nitems
    then subtract t l.write_waiters
    else (if is_write_locked l
        then subtract (subtract t l.read_waiters) l.write_waiters
        else (if ltb 0 (Tidset.size l.write_waiters) then subtract t l.read_waiters else t))

without_lem :
    (t : Tidset) (l : Lock)
    → Valid.IsValid t
    → IsSoundLock l
    → Valid.IsValid (without t l) × ((x : ℕ) → has (without t l) x ≡ (has t x && not (blocks l x)))
without_lem t l v w =
    let (v_r, m_r) = subtract_lem t l.read_waiters v in
    let (v_w, m_w) = subtract_lem t l.write_waiters v in
    let (v_b, m_b) = subtract_lem (subtract t l.read_waiters) l.write_waiters v_r in
    elim (Bool-cases (ltb 0 l.readers.nitems)) [
      | inl reading ↦ rw reading (v_w, λ x. ground (arith, m_w x, w.exclusive))
      | inr unread ↦ elim (Bool-cases (is_write_locked l)) [
        | inl written ↦ rw (unread, written) (v_b, λ x. ground (arith, m_b x, m_r x))
        | inr unwritten ↦ elim (Bool-cases (ltb 0 (Tidset.size l.write_waiters))) [
          | inl wanted ↦ rw (unread, unwritten, wanted) (v_r, λ x. ground (arith, m_r x))
          | inr quiet ↦ rw (unread, unwritten, quiet) (v, λ x. ground arith)
        ]
      ]
    ]

filter_step :
    (k : ℕ) (l : Lock) (ls : List (ℕ × Lock)) (t : Tidset)
    → IsSoundLock l
    → filter_waiters ((k, l) ∷ ls) t ≡ filter_waiters ls (without t l)
unfolding filter_waiters
filter_step k l ls t w = rw (is_read_locked-eq l w) refl

filter_waiters-filters :
    (ls : List (ℕ × Lock)) (t : Tidset)
    → AllSound ls
    → Valid.IsValid t
    → (r : Tidset) × (filter_waiters ls t ≡ ok r)
      × Valid.IsValid r
      × ((x : ℕ) → has r x ≡ (has t x && not (any_blocks ls x)))
unfolding filter_waiters
filter_waiters-filters [] t w v = (t, refl, v, λ x. ground arith)
filter_waiters-filters ((k, l) ∷ ls) t (w, ws) v =
    let (v', m') = without_lem t l v w in
    let (r, e, valid, members) = filter_waiters-filters ls (without t l) ws v' in
    (r, filter_step k l ls t w ∙ e, valid, λ x. ground (arith, members x, m' x))

-- In a sound state the question for a task returns.
pub should_wait-eq : (s : State) (x : ℕ) → IsSound s → should_wait s x ≡ ok (waits s x)
unfolding should_wait
should_wait-eq s x v =
    should_wait_in-eq s.locks.items x (items-AllSound s.locks.items v.keyed.distinct v.sound)

pub filter-filters :
    (s : State) (t : Tidset)
    → IsSound s
    → Valid.IsValid t
    → (r : Tidset) × (filter_waiters s.locks.items t ≡ ok r)
      × Valid.IsValid r
      × ((x : ℕ) → has r x ≡ (has t x && not (waits s x)))
filter-filters s t v =
    filter_waiters-filters s.locks.items t (items-AllSound s.locks.items v.keyed.distinct v.sound)
