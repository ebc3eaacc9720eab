-- ===== src/Metrics/Totals.antt =====
-- internal/metrics/metrics.go: what the durations of a record add up to.
use commiter_cli.Base.{ℕ, ◌+◌, ◌^◌, ◌%◌, Option, none, some, List, [], ◌∷◌, ◌≡◌, ap, arith}
use commiter_cli.Base.Str.{Str}
use mathlib.Core.Logic.{ite}
use commiter_cli.Metrics.Recorder.{
  Phase, Record, Durations, at_phase, set_phase, accumulate, add64, add_named, phase_named,
}

at_phase-set_phase :
    (d : Durations) (p q : Phase) (v : Option ℕ) → p ≡ q → at_phase (set_phase d p v) q ≡ v
unfolding at_phase set_phase
at_phase-set_phase d p q v e = ground arith

at_phase-set_phase-other :
    (d : Durations) (p q : Phase) (v : Option ℕ)
    → ¬ (p ≡ q)
    → at_phase (set_phase d p v) q ≡ at_phase d q
unfolding at_phase set_phase
at_phase-set_phase-other d p q v n = ground arith

phase_dec : Discrete Phase
phase_dec = hlevel

-- What one call adds to a phase.
share : Phase → Option Phase → ℕ → ℕ
share p none value = 0
share p (some q) value = ite (phase_dec q p) value 0

-- What a list of calls of `AddDuration` adds to a phase, without a bound.
pub sum : Phase → List (Str × ℕ) → ℕ
unfolding share phase_dec
sum p [] = 0
sum p ((name, value) ∷ calls) = share p (phase_named name) value + sum p calls

-- The calls, one after the other.
pub add_durations : List (Str × ℕ) → Record → Record
add_durations [] r = r
add_durations ((name, value) ∷ calls) r = add_durations calls (add_named (phase_named name) value r)

abbrev or_zero : Option ℕ → ℕ
or_zero none = 0
or_zero (some v) = v

-- The nanoseconds of a phase, none for one that was not measured.
pub nanoseconds : Record → Phase → ℕ
nanoseconds r p = or_zero (at_phase r.durations p)

accumulate-mod :
    (o : Option ℕ) (value : ℕ) → accumulate o value % 2 ^ 64 ≡ (or_zero o + value) % 2 ^ 64
unfolding accumulate add64
accumulate-mod none value = omega arith
accumulate-mod (some old) value = omega arith

nanoseconds-add_named :
    (r : Record) (p : Phase) (q : Option Phase) (value : ℕ)
    → nanoseconds (add_named q value r) p % 2 ^ 64 ≡ (nanoseconds r p + share p q value) % 2 ^ 64
unfolding nanoseconds add_named share
nanoseconds-add_named r p none value = omega arith
nanoseconds-add_named r p (some q) value = elim (phase_dec q p) [
  | yes e ↦
      let set =
        ap or_zero (
          at_phase-set_phase r.durations q p (some (accumulate (at_phase r.durations q) value))
            e) in
      let was = ap (λ x. or_zero (at_phase r.durations x)) e in
      ground (arith, e, set, was, accumulate-mod (at_phase r.durations q) value)
  | no n ↦
      let kept = ap or_zero (
        at_phase-set_phase-other r.durations q p (some (accumulate (at_phase r.durations q) value))
          n) in
      ground (arith, n, kept)
]

-- Whatever calls are made in whatever order, the duration of each phase is the sum of the values
-- recorded for it on top of what was there, as an int64 wraps around.
pub nanoseconds-add_durations :
    (calls : List (Str × ℕ)) (r : Record) (p : Phase)
    → nanoseconds (add_durations calls r) p % 2 ^ 64 ≡ (nanoseconds r p + sum p calls) % 2 ^ 64
unfolding add_durations sum
nanoseconds-add_durations [] r p = omega arith
nanoseconds-add_durations ((name, value) ∷ calls) r p = omega (
  arith,
  nanoseconds-add_durations calls (add_named (phase_named name) value r) p,
  nanoseconds-add_named r p (phase_named name) value,
)
