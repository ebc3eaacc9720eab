-- ===== src/Metrics/Tests.antt =====
-- Two generations and a push on a new record.
use commiter_cli.Base.{◌≡◌, ◌+◌, ◌^◌, ◌%◌, List, [], ◌∷◌, ℕ}
use commiter_cli.Base.Str.{Str, lit, str_eq}
use commiter_cli.Metrics.Recorder.{Phase, new}
use commiter_cli.Metrics.Totals.{sum, add_durations, nanoseconds, nanoseconds-add_durations}

abbrev calls : List (Str × ℕ)
calls = (lit "generation", 30) ∷ (lit "push", 5) ∷ (lit "generation", 12) ∷ (lit "unknown", 7) ∷ []

nanoseconds-add_durations_example :
    nanoseconds (add_durations calls (new 0)) Phase.generation % 2 ^ 64
    ≡ (nanoseconds (new 0) Phase.generation + sum Phase.generation calls) % 2 ^ 64
nanoseconds-add_durations_example = nanoseconds-add_durations calls (new 0) Phase.generation
