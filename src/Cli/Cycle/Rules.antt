-- ===== src/Cli/Cycle/Rules.antt =====
-- internal/cli/collection.go: how a property of the calls of a cycle is followed through its steps.
use commiter_cli.Base.{
  ◌≡◌, refl, sym, ℕ, Bool, true, false, Option, none, some, List, ◌++◌, ap, if◌then◌else◌,
}
use mathlib.Core.Path.{subst}
use commiter_cli.Base.Str.{Str}
use commiter_cli.Cli.Host.{
  Calls, Event, Session, Step, M, go, leave, exhausted, continue, ◌>>=◌, pure, leave_with, call,
  recorded, fail_with, must, must_write, unless_interrupted,
}

module _ (C : Calls) {A : Type 0} where
  -- How a step ended: the calls are safe where it left the cycle, for the way it left it, which is
  -- none where its fuel ran out, and have the property otherwise.
  abbrev pub Ends :
      (Option Bool → List Event → Type 0) → (A → List Event → Type 0) → Session C × Step A → Type 0
  Ends Safe Q (r, go a) = Q a r.log
  Ends Safe Q (r, leave code again) = Safe (some again) r.log
  Ends Safe Q (r, exhausted) = Safe none r.log

-- From some calls on, a step ends so.
pub record From (C : Calls) {A : Type 0} (Safe : Option Bool → List Event → Type 0)
    (calls : List Event) (m : M C A) (Q : A → List Event → Type 0) : Type 0 where
  pub ends : (r : Session C) → r.log ≡ calls → Ends C Safe Q (m r)

Ends-weaken :
    (C : Calls) (Safe : Option Bool → List Event → Type 0) {A : Type 0}
    {Q R : A → List Event → Type 0} (r : Session C × Step A)
    → Ends C Safe Q r
    → ((a : A) (calls : List Event) → Q a calls → R a calls)
    → Ends C Safe R r
Ends-weaken C Safe (r, go a) h k = k a r.log h
Ends-weaken C Safe (r, leave code again) h k = h
Ends-weaken C Safe (r, exhausted) h k = h

module _ {C : Calls} {Safe : Option Bool → List Event → Type 0} where
  Ends-continue :
      {A B : Type 0} {Q : A → List Event → Type 0} {R : B → List Event → Type 0} {f : A → M C B}
      (r : Session C × Step A)
      → Ends C Safe Q r
      → ((a : A) (calls : List Event) → Q a calls → From C Safe calls (f a) R)
      → Ends C Safe R (continue {C = C} r.1 f r.0)
  Ends-continue (r, go a) h k = (k a r.log h).ends r refl
  Ends-continue (r, leave code again) h k = h
  Ends-continue (r, exhausted) h k = h

  pub from_bind :
      {A B : Type 0} {Q : A → List Event → Type 0} {R : B → List Event → Type 0} {m : M C A}
      {f : A → M C B} {calls : List Event}
      → From C Safe calls m Q
      → ((a : A) (later : List Event) → Q a later → From C Safe later (f a) R)
      → From C Safe calls (◌>>=◌ {C = C} m f) R
  unfolding ◌>>=◌
  from_bind {m} h k = record { ends = λ r e. Ends-continue (m r) (h.ends r e) k }

  pub from_weaken :
      {A : Type 0} {Q R : A → List Event → Type 0} {m : M C A} {calls : List Event}
      → From C Safe calls m Q
      → ((a : A) (later : List Event) → Q a later → R a later)
      → From C Safe calls m R
  from_weaken {m} h k = record { ends = λ r e. Ends-weaken C Safe (m r) (h.ends r e) k }

  -- A step whose calls are known, such as one that records nothing.
  pub from_then :
      {A B : Type 0} {R : B → List Event → Type 0} {m : M C A} {f : A → M C B} {calls : List Event}
      {after : A → List Event}
      → From C Safe calls m (λ a later. later ≡ after a)
      → ((a : A) → From C Safe (after a) (f a) R)
      → From C Safe calls (◌>>=◌ {C = C} m f) R
  from_then {R} {f} h k = from_bind h λ a later e. subst (λ l. From C Safe l (f a) R) (sym e) (k a)

  pub from_quiet :
      {A B : Type 0} {R : B → List Event → Type 0} {m : M C A} {f : A → M C B} {calls : List Event}
      → From C Safe calls m (λ a later. later ≡ calls)
      → ((a : A) → From C Safe calls (f a) R)
      → From C Safe calls (◌>>=◌ {C = C} m f) R
  from_quiet h k = from_then h k

  -- The same from calls that are equal.
  pub from_at :
      {A : Type 0} {Q : A → List Event → Type 0} {m : M C A} {calls later : List Event}
      → later ≡ calls
      → From C Safe calls m Q
      → From C Safe later m Q
  from_at {Q} {m} e h = subst (λ l. From C Safe l m Q) (sym e) h

  pub from_recorded :
      {A B : Type 0} {R : B → List Event → Type 0} {f : A → M C B} {calls : List Event}
      (g : C.World → C.World × A) (events : A → List Event)
      → ((a : A) → From C Safe (events a ++ calls) (f a) R)
      → From C Safe calls (◌>>=◌ {C = C} (recorded g events) f) R
  unfolding ◌>>=◌ recorded
  from_recorded g events k = record {
    ends = λ r e. (k (g r.world).1).ends _ (ap (λ l. events (g r.world).1 ++ l) e);
  }

  pub from_call :
      {A B : Type 0} {R : B → List Event → Type 0} {f : A → M C B} {calls : List Event}
      (g : C.World → C.World × A)
      → ((a : A) → From C Safe calls (f a) R)
      → From C Safe calls (◌>>=◌ {C = C} (call g) f) R
  unfolding ◌>>=◌ call
  from_call g k = record { ends = λ r e. (k (g r.world).1).ends _ e }

  pub from_pure :
      {A : Type 0} {Q : A → List Event → Type 0} {calls : List Event} (a : A)
      → Q a calls
      → From C Safe calls (pure {C = C} a) Q
  unfolding pure
  from_pure {Q} a h = record { ends = λ r e. subst (λ l. Q a l) (sym e) h }

  pub from_fail :
      {A : Type 0} {Q : A → List Event → Type 0} {calls : List Event} (code : ℕ) (message : Str)
      → Safe (some false) calls
      → From C Safe calls (fail_with {C = C} code message) Q
  unfolding fail_with
  from_fail code message h = record { ends = λ r e. subst (Safe (some false)) (sym e) h }

  pub from_leave :
      {A : Type 0} {Q : A → List Event → Type 0} {calls : List Event} (code : ℕ) (again : Bool)
      → Safe (some again) calls
      → From C Safe calls (leave_with {C = C} code again) Q
  unfolding leave_with
  from_leave code again h = record { ends = λ r e. subst (Safe (some again)) (sym e) h }

  pub from_if :
      {A : Type 0} {Q : A → List Event → Type 0} {m n : M C A} {calls : List Event} (b : Bool)
      → (b ≡ true → From C Safe calls m Q)
      → (b ≡ false → From C Safe calls n Q)
      → From C Safe calls (if b then m else n) Q
  from_if true h k = h refl
  from_if false h k = k refl

  -- The steps that go on with nothing recorded, or fail.
  pub from_must :
      {calls : List Event} (g : C.World → C.World × Bool) (code : ℕ) (message : Str)
      → Safe (some false) calls
      → From C Safe calls (must {C = C} g code message) (λ a later. later ≡ calls)
  unfolding must
  from_must g code message h =
      from_call g λ done. from_if done (λ e. from_pure tt refl) (λ e. from_fail code message h)

  pub from_must_write :
      {calls : List Event} (g : C.World → C.World × Bool)
      → Safe (some false) calls
      → From C Safe calls (must_write {C = C} g) (λ a later. later ≡ calls)
  unfolding must_write
  from_must_write g h = from_must g _ _ h

  pub from_unless :
      {calls : List Event} (message : Str)
      → Safe (some false) calls
      → From C Safe calls (unless_interrupted {C = C} message) (λ a later. later ≡ calls)
  unfolding unless_interrupted
  from_unless message h =
      from_call C.interrupted λ i. from_if i (λ e. from_fail _ message h) (λ e. from_pure tt refl)
