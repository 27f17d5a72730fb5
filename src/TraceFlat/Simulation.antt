-- ===== src/TraceFlat/Simulation.antt =====
-- A flat trace of src/base/trace_flat.c as a queue: its operations as commands, and what they do to the
-- list of cells.
use lotto.Base.{
  ℕ, zero, suc, ◌<◌, ◌≡◌, refl, ap, false, List, [], ◌∷◌, ◌++◌, ◌==◌, if◌then◌else◌, arith, Outcome,
  ok, fault, fatal, ◌>>=◌, length, drop_last, Returned, Returns, Returns_of, ◌∙◌,
}
use lotto.TraceFlat.{
  Record, Node, Trace, load, append, pop, advance, next, last, forget, clear, save_from, save_to,
}
use lotto.TraceFlat.Linked.{Cell, first, Linked, load-some}
use lotto.TraceFlat.Queue.{Represents, IsNew}
use lotto.TraceFlat.Append.{append-Represents}
use lotto.TraceFlat.Pop.{pop-Pops, pop_empty, advance-Represents, advance_empty}
use lotto.TraceFlat.Forget.{forget-Represents}
use lotto.TraceFlat.Search.{skip, front, back, next-Represents, clear-Represents, last-eq}

pub data Command : Type 0 where
  appending : Cell → Command
  popping advancing forgetting clearing reading_last saving : Command
  finding : ℕ → Command

abbrev silent : {S : Type 0} → S → Outcome Trace → Outcome (Trace × S × ℕ)
silent out m = do t ← m; ok (t, out, 0)

abbrev told : {S : Type 0} → S → Outcome (Trace × ℕ) → Outcome (Trace × S × ℕ)
told out m = do (t, item) ← m; ok (t, out, item)

-- A call on a trace and an output stream, with the address that it returns.
unfoldable pub run :
    {S : Type 0} → (S → Record → S × ℕ) → ℕ → Command → Trace → S → Outcome (Trace × S × ℕ)
run write fuel (appending c) t out = silent out (append t c.at c.item)
run write fuel popping t out = told out (pop t)
run write fuel advancing t out = silent out (advance t)
run write fuel forgetting t out = silent out (forget t)
run write fuel clearing t out = silent out (clear fuel t)
run write fuel reading_last t out = do item ← last t; ok (t, out, item)
run write fuel saving t out = do out' ← save_to write fuel t out; ok (t, out', 0)
run write fuel (finding filter) t out = told out (next fuel t filter)

abbrev pub save_list : {S : Type 0} → (S → Record → S × ℕ) → List Cell → S → Outcome S
save_list write [] out = ok out
save_list write (c ∷ l) out =
    let rest = save_list write l (write out c.value).0 in
    if (write out c.value).1 == 0 then fault fatal else rest

abbrev rest_of : List Cell → List Cell
rest_of [] = []
rest_of (c ∷ l) = l

-- What the call does to the queue.
unfoldable pub meaning :
    {S : Type 0} → (S → Record → S × ℕ) → Command → List Cell → S → Outcome (List Cell × S × ℕ)
meaning write (appending c) l out = ok (l ++ c ∷ [], out, 0)
meaning write popping l out = ok (rest_of l, out, front l)
meaning write advancing l out = ok (rest_of l, out, 0)
meaning write forgetting l out = ok (drop_last l, out, 0)
meaning write clearing l out = ok ([], out, 0)
meaning write reading_last l out = ok (l, out, back l)
meaning write saving l out = do out' ← save_list write l out; ok (l, out', 0)
meaning write (finding filter) l out = ok (skip filter l, out, front (skip filter l))

-- The same result, or the same fault.
abbrev pub Simulates : {S : Type 0} → Outcome (Trace × S × ℕ) → Outcome (List Cell × S × ℕ) → Type 0
Simulates (ok (t, out, item)) (ok (l, out', item')) = Represents t l × (out ≡ out') × (item ≡ item')
Simulates (fault e) (fault f) = e ≡ f
Simulates (ok a) (fault f) = ⊥
Simulates (fault e) (ok b) = ⊥

-- An appended cell is new.
abbrev pub IsAllowed : Trace → List Cell → Command → Type 0
IsAllowed t l (appending c) = IsNew t l c
IsAllowed t l _ = Unit

silent-Simulates :
    {S : Type 0} (out : S) (m : Outcome Trace) (l : List Cell)
    → Returns m (λ r. Represents r l)
    → Simulates (silent out m) (ok (l, out, 0))
silent-Simulates out (ok t) l h = (h, refl, refl)
silent-Simulates out (fault e) l h = h

told-Simulates :
    {S : Type 0} (out : S) (m : Outcome (Trace × ℕ)) (l : List Cell) (item : ℕ)
    → Returns m (λ r. Represents r.0 l × (r.1 ≡ item))
    → Simulates (told out m) (ok (l, out, item))
told-Simulates out (ok (t, k)) l item h = (h.0, refl, h.1)
told-Simulates out (fault e) l item h = h

save_from_end :
    {S : Type 0} (write : S → Record → S × ℕ) (fuel : ℕ) (t : Trace) (out : S)
    → save_from write (suc fuel) t 0 out ≡ ok out
unfolding save_from
save_from_end write fuel t out = refl

save_from_node :
    {S : Type 0} (write : S → Record → S × ℕ) (fuel : ℕ) (t : Trace) (p : ℕ) (n : Node) (r : Record)
    (out : S)
    → (p == 0) ≡ false
    → load t.nodes p ≡ ok n
    → load t.records n.item ≡ ok r
    → save_from write (suc fuel) t p out ≡ (
        if (write out r).1 == 0 then fault fatal else save_from write fuel t n.next (write out r).0)
unfolding save_from
save_from_node write fuel t p n r out z e f = rw (e, f, z) refl

save_from-eq :
    {S : Type 0} (write : S → Record → S × ℕ) (fuel : ℕ) (t : Trace) (before : ℕ) (l : List Cell)
    (out : S)
    → Linked t.nodes t.records before l 0
    → length l < fuel
    → save_from write fuel t (first l 0) out ≡ save_list write l out
save_from-eq write zero t before l out h k = absurd (omega arith)
save_from-eq write (suc fuel) t before [] out h k = save_from_end write fuel t out
save_from-eq write (suc fuel) t before (c ∷ l) out (a, b, n, r, h) k =
    save_from_node write fuel t c.at _ c.value out (ground arith) (load-some t.nodes c.at _ a n)
      (load-some t.records c.item c.value b r)
    ∙ ap (λ m. if (write out c.value).1 == 0 then fault fatal else m)
        (save_from-eq write fuel t c.at l (write out c.value).0 h (omega arith))

save_to-eq :
    {S : Type 0} (write : S → Record → S × ℕ) (fuel : ℕ) (t : Trace) (l : List Cell) (out : S)
    → Represents t l
    → length l < fuel
    → save_to write fuel t out ≡ save_list write l out
unfolding save_to
save_to-eq write fuel t l out v h =
    ap (λ p. save_from write fuel t p out) v.heads ∙ save_from-eq write fuel t 0 l out v.links h

saving-Simulates :
    {S : Type 0} (m : Outcome S) (t : Trace) (l : List Cell)
    → Represents t l
    → Simulates (do out ← m; ok (t, out, 0)) (do out ← m; ok (l, out, 0))
saving-Simulates (ok out) t l v = (v, refl, refl)
saving-Simulates (fault e) t l v = refl

-- Each operation on a flat trace that represents a list of cells does what its meaning on the list
-- says, with fuel above the list's length: it ends in the same fault, or returns the same address
-- and output and a trace that represents the new list and has no other nodes. The node that is
-- appended must be new and its record allocated and in no other cell.
pub run-Simulates :
    {S : Type 0} (write : S → Record → S × ℕ) (fuel : ℕ) (k : Command) (t : Trace) (l : List Cell)
    (out : S)
    → Represents t l
    → IsAllowed t l k
    → length l < fuel
    → Simulates (run write fuel k t out) (meaning write k l out)
unfolding run meaning
run-Simulates write fuel (appending c) t l out v w h =
    silent-Simulates out (append t c.at c.item) (l ++ c ∷ []) (append-Represents t l c v w)
run-Simulates write fuel popping t [] out v w h =
    told-Simulates out (pop t) [] 0 (Returns_of _ {m = pop t} (t, 0) (pop_empty t v) (v, refl))
run-Simulates write fuel popping t (c ∷ l) out v w h =
    let (r, e, (p, same)) = Returned _ (pop t) (pop-Pops t c l v) in
    told-Simulates out (pop t) l c.item (Returns_of _ {m = pop t} r e (p.rest, same))
run-Simulates write fuel advancing t [] out v w h =
    silent-Simulates out (advance t) [] (Returns_of _ {m = advance t} t (advance_empty t v) v)
run-Simulates write fuel advancing t (c ∷ l) out v w h =
    silent-Simulates out (advance t) l (advance-Represents t c l v)
run-Simulates write fuel forgetting t l out v w h =
    silent-Simulates out (forget t) (drop_last l) (forget-Represents t l v)
run-Simulates write fuel clearing t l out v w h =
    silent-Simulates out (clear fuel t) [] (clear-Represents fuel t l v h)
run-Simulates write fuel reading_last t l out v w h = rw (last-eq t l v) (v, refl, refl)
run-Simulates write fuel saving t l out v w h =
    rw (save_to-eq write fuel t l out v h) (saving-Simulates (save_list write l out) t l v)
run-Simulates write fuel (finding filter) t l out v w h =
    told-Simulates out (next fuel t filter) (skip filter l) (front (skip filter l))
      (next-Represents fuel t filter l v h)
