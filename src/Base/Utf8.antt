-- ===== src/Base/Utf8.antt =====
-- Package unicode/utf8: which bytes are UTF-8, read from left to right.
use Prim.Native.Nat.{ℕ, zero, suc}
use mathlib.Core.Path.{◌≡◌, refl, ap, sym, ◌∙◌}
use mathlib.Core.Bool.{Bool, true, false, ◌&&◌}
use mathlib.Core.Option.{Option, none, some}
use mathlib.Core.List.{List, [], ◌∷◌, ◌++◌}
use commiter_cli.Base.Tests.{eqb, leb, ltb, if◌then◌else◌}

-- Between two runes, or in one: the range of the next byte, and how many follow that one.
pub data Place : Type 0 where
  start : Place
  inside : (lo hi after : ℕ) → Place

between : ℕ → ℕ → ℕ → Bool
between lo hi c = leb lo c && leb c hi

first : ℕ → Option Place
unfolding between
first c =
    if ltb c 0x80
    then some start
    else if between 0xc2 0xdf c
    then some (inside 0x80 0xbf 0)
    else if eqb c 0xe0
    then some (inside 0xa0 0xbf 1)
    else if eqb c 0xed
    then some (inside 0x80 0x9f 1)
    else if between 0xe1 0xef c
    then some (inside 0x80 0xbf 1)
    else if eqb c 0xf0
    then some (inside 0x90 0xbf 2)
    else if eqb c 0xf4
    then some (inside 0x80 0x8f 2)
    else if between 0xf1 0xf3 c
    then some (inside 0x80 0xbf 2)
    else none

next : Place → ℕ → Option Place
unfolding first
next start c = first c
next (inside lo hi zero) c = if between lo hi c then some start else none
next (inside lo hi (suc n)) c = if between lo hi c then some (inside 0x80 0xbf n) else none

read : Option Place → List ℕ → Option Place
unfolding next
read o [] = o
read none (c ∷ s) = none
read (some p) (c ∷ s) = read (next p c) s

at_start : Option Place → Bool
at_start (some start) = true
at_start _ = false

-- utf8.ValidString
unfoldable pub valid_string : List ℕ → Bool
unfolding read at_start
valid_string s = at_start (read (some start) s)

at_start-true : (o : Option Place) → at_start o ≡ true → o ≡ some start
unfolding at_start
at_start-true none h = cc
at_start-true (some start) h = refl
at_start-true (some (inside lo hi n)) h = cc

read-none : (s : List ℕ) → read none s ≡ none
unfolding read
read-none [] = refl
read-none (c ∷ s) = refl

read-append : (o : Option Place) (s t : List ℕ) → read o (s ++ t) ≡ read (read o s) t
unfolding read
read-append o [] t = refl
read-append none (c ∷ s) t = sym (read-none t)
read-append (some p) (c ∷ s) t = read-append (next p c) s t

-- Texts that are UTF-8 stay so side by side.
pub valid_string-append :
    (s t : List ℕ) → valid_string s ≡ true → valid_string t ≡ true → valid_string (s ++ t) ≡ true
unfolding valid_string
valid_string-append s t h k =
    ap at_start
      (read-append (some start) s t ∙ ap (λ o. read o t) (at_start-true (read (some start) s) h))
    ∙ k
