-- ===== src/Gitstate/Errors.antt =====
-- internal/gitstate/types.go: `Error`, by its kind and message, and results that may be one.
use commiter_cli.Base.{◌≡◌, refl}
use commiter_cli.Base.Str.{Str}

pub data ErrorKind : Type 0 where
  internal usage safety : ErrorKind

pub data Result {ℓ} (A : Type ℓ) : Type ℓ where
  ok : A → Result A
  err : ErrorKind → Str → Result A

infixl 10 ◌>>=◌
abbrev pub ◌>>=◌ {ℓ κ} : {A : Type ℓ} {B : Type κ} → Result A → (A → Result B) → Result B
ok a >>= f = f a
err k m >>= f = err k m

pub ok-injective {ℓ} : {A : Type ℓ} (a b : A) → ok a ≡ ok b → a ≡ b
ok-injective a b h = cc

-- A chain that succeeded: its first step did, and the rest did from there.
pub >>=-ok {ℓ κ} :
    {A : Type ℓ} {B : Type κ} (r : Result A) (f : A → Result B) (b : B)
    → (r >>= f) ≡ ok b
    → (a : A) × (r ≡ ok a) × (f a ≡ ok b)
>>=-ok (ok a) f b h = (a, refl, h)
>>=-ok (err k m) f b h = cc
