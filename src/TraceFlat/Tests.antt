-- ===== src/TraceFlat/Tests.antt =====
-- A flat trace of two records, and its theorem on it.
use lotto.Base.{
  ℕ, suc, ◌≡◌, refl, Option, none, some, [], ◌∷◌, ◌==◌, if◌then◌else◌, arith, ok, Returned,
  Returns-ok,
}
use lotto.TraceFlat.{Record, Trace, create, append, pop, next, last, forget, clear}
use lotto.TraceFlat.Linked.{Cell}
use lotto.TraceFlat.Queue.{Represents, IsNew, create-Represents}
use lotto.TraceFlat.Append.{append-Represents}
use lotto.TraceFlat.Simulation.{finding, run, meaning, Simulates, run-Simulates}

program : Unit {0}
unfolding create append pop next last forget clear lotto.TraceFlat.load
program = tt

-- Records of the kinds RECORD_SCHED and RECORD_EXIT, at the addresses 256 and 512.
abbrev of_kind : ℕ → Record
of_kind k = record {
  id = 1;
  clk = 7;
  chain_id = 0;
  type_id = 3;
  reason = 1;
  kind = k;
  pc = 4096;
  data_bytes = 1 ∷ 2 ∷ [];
}

abbrev records : ℕ → Option Record
records x = if 256 == x then some (of_kind 2) else if 512 == x then some (of_kind 8) else none

abbrev one : Cell
one = record { at = 16; item = 256; value = of_kind 2 }

abbrev two : Cell
two = record { at = 32; item = 512; value = of_kind 8 }

one-IsNew : IsNew (create records) [] one
unfolding create
one-IsNew = record {
  allocated = omega arith;
  unused = refl;
  given = omega arith;
  known = refl;
  foreign = refl;
}

abbrev single : Trace
single = record {
  nodes = λ x.
      if 16 == x
      then some (record { prev = 0; next = 0; item = 256 })
      else (if 16 == x then some (record { prev = 0; next = 0; item = 256 }) else none);
  records = records;
  head = 16;
  tail = 16;
}

appended : append (create records) 16 256 ≡ ok single
unfolding program
appended = refl

single-Represents : Represents single (one ∷ [])
single-Represents =
    Returns-ok (λ r. Represents r (one ∷ [])) single appended
      (append-Represents (create records) [] one (create-Represents records) one-IsNew)

two-IsNew : IsNew single (one ∷ []) two
two-IsNew = record {
  allocated = omega arith;
  unused = refl;
  given = omega arith;
  known = refl;
  foreign = refl;
}

double : (t : Trace) × (append single 32 512 ≡ ok t) × Represents t (one ∷ two ∷ [])
double =
    Returned (λ r. Represents r (one ∷ two ∷ [])) (append single 32 512)
      (append-Represents single (one ∷ []) two single-Represents two-IsNew)

-- The stream counts the records.
abbrev counts : ℕ → Record → ℕ × ℕ
counts n r = (suc n, 72)

finds_exit : meaning counts (finding 8) (one ∷ two ∷ []) 0 ≡ ok (two ∷ [], 0, 512)
unfolding meaning
finds_exit = refl

run-Simulates_example :
    Simulates (run counts 3 (finding 8) double.0 0) (meaning counts (finding 8) (one ∷ two ∷ []) 0)
run-Simulates_example =
    run-Simulates counts 3 (finding 8) double.0 (one ∷ two ∷ []) 0 double.2 tt (omega arith)
