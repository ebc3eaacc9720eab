-- ===== src/Base/Result.antt =====
-- A value or an error that is no more than its message.
use mathlib.Core.Path.{◌≡◌, refl}
use commiter_cli.Base.Str.{Str}

pub data Result {ℓ} (A : Type ℓ) : Type ℓ where
  ok : A → Result A
  err : Str → Result A

infixl 10 ◌>>=◌
abbrev pub ◌>>=◌ {ℓ κ} : {A : Type ℓ} {B : Type κ} → Result A → (A → Result B) → Result B
ok a >>= f = f a
err m >>= f = err m

-- A chain that succeeded: its first step did, and the rest did from there.
pub >>=-ok {ℓ κ} :
    {A : Type ℓ} {B : Type κ} (r : Result A) (f : A → Result B) (b : B)
    → (r >>= f) ≡ ok b
    → (a : A) × (r ≡ ok a) × (f a ≡ ok b)
>>=-ok (ok a) f b h = (a, refl, h)
>>=-ok (err m) f b h = cc

pub ok-injective {ℓ} : {A : Type ℓ} (a b : A) → ok a ≡ ok b → a ≡ b
ok-injective a b h = cc

-- Two chains that agree at each step that is reached agree.
pub >>=-agree {ℓ κ} :
    {A : Type ℓ} {B : Type κ} {f g : A → Result B} (r : Result A)
    → ((a : A) → r ≡ ok a → f a ≡ g a)
    → (r >>= f) ≡ (r >>= g)
>>=-agree (ok a) h = h a refl
>>=-agree (err m) h = refl
