-- ===== src/Commitexec/Restore.antt =====
-- What the deferred function of `Execute` restores.
use commiter_cli.Base.{
  ◌≡◌, if◌then◌else◌, sym, ◌∙◌, refl, ◌⊎◌, inl, inr, Bool, true, false, Option, some, arith, ap,
}
use mathlib.Core.Path.{subst}
use mathlib.Core.Option.{none-ne-some, some-injective}
use commiter_cli.Commitexec.Index.{restore_outside}
use commiter_cli.Base.Str.{Str, lit}
use commiter_cli.Commitexec.Host.{Host}
use commiter_cli.Commitexec.Run.{Run, Outcome, ok, fail, Failure, classified, an_error, exit_safety}
use commiter_cli.Commitexec.Execute.{Options, finish, execute, execute_body, mark_restored, start}

-- The file system keeps what is written: after a write of the index that succeeded, reading it gives
-- the bytes written.
pub record KeepsIndex (H : Host) : Type 0 where
  pub read-write :
      (w w' : H.World) (bytes : Str)
      → H.write_index w bytes ≡ (w', true)
      → H.read_index w' ≡ some bytes

abbrev pub restoration_unknown : Failure
restoration_unknown =
    classified (an_error exit_safety (lit "commit failed and index restoration is unknown"))

module _ {H : Host} where
  finish-created :
      (original : Str) (p : Run H × Outcome Unit) → (finish original p).0.created ≡ p.0.created
  unfolding finish
  finish-created original (r, ok u) = refl
  finish-created original (r, fail f) = refl

module _ {H : Host} (L : KeepsIndex H) where
  write-restores :
      (original : Str) (w : H.World) (f : Failure) (p : H.World × Bool)
      → H.write_index w original ≡ p
      → ◌≡◌ {A = Option Failure}
          (some (if p.1 then f else restoration_unknown))
          (some restoration_unknown)
        ⊎ (H.read_index p.0 ≡ some original)
  write-restores original w f (w', true) e = inr (L.read-write w w' original e)
  write-restores original w f (w', false) e = inl refl

  finish-restores :
      (original : Str) (r : Run H) (f : Failure)
      → r.created ≡ false
      → ((finish original (r, fail f)).1 ≡ some restoration_unknown)
        ⊎ (H.read_index (finish original (r, fail f)).0.world ≡ some original)
  unfolding finish
  finish-restores original r f c =
      subst
        (λ b.
          let p =
            if b
            then restore_outside H original r.committed r.world
            else H.write_index r.world original in
          (◌≡◌ {A = Option Failure} (some (if p.1 then mark_restored f else restoration_unknown))
            (some restoration_unknown))
          ⊎ (H.read_index p.0 ≡ some original))
        (sym c)
        (write-restores original r.world (mark_restored f) (H.write_index r.world original) refl)

  restores :
      (original : Str) (p : Run H × Outcome Unit) {f : Failure}
      → (finish original p).1 ≡ some f
      → p.0.created ≡ false
      → (f ≡ restoration_unknown) ⊎ (H.read_index (finish original p).0.world ≡ some original)
  restores original (r, ok u) h c = absurd (unfold finish in none-ne-some _ h)
  restores original (r, fail g) h c = elim (finish-restores original r g c) [
    | inl e ↦ inl (some-injective _ _ (sym h ∙ e))
    | inr e ↦ inr e
  ]

module _ (H : Host) where
  execute-cases :
      (o : Options) (w : H.World) (original : Str)
      → H.read_index w ≡ some original
      → ((execute H o w).0 ≡ start H w)
        ⊎ (execute H o w ≡ finish original (execute_body o original (start H w)))
  execute-cases o w original i = unfold execute in ground arith

  -- If `Execute` returns an error and no commit was created, then the index holds the bytes that it
  -- held before, unless the error says that its restoration is unknown. The file system is assumed
  -- to return what was written.
  pub execute-restores :
      KeepsIndex H
      → (o : Options) (w : H.World) (original : Str) (f : Failure) → H.read_index w ≡ some original
      → (execute H o w).1 ≡ some f
      → (execute H o w).0.created ≡ false
      → (f ≡ restoration_unknown) ⊎ (H.read_index (execute H o w).0.world ≡ some original)
  execute-restores L o w original f i h c = elim (execute-cases o w original i) [
    | inl e ↦ inr (ap (λ (r : Run H). H.read_index r.world) e ∙ i)
    | inr e ↦
        let p = execute_body o original (start H w) in
        let c' : (finish original p).0.created ≡ false = subst (λ x. x.0.created ≡ false) e c in
        subst (λ x. (f ≡ restoration_unknown) ⊎ (H.read_index x.0.world ≡ some original)) (sym e)
          (restores L original p (subst (λ x. x.1 ≡ some f) e h)
            (sym (finish-created original p) ∙ c'))
  ]
