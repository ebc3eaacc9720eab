-- ===== src/Context/Chunk/Truncate.antt =====
-- internal/contextinput/chunk.go: `truncateUTF8` keeps its limit, and UTF-8.
use commiter_cli.Base.{
  ℕ, zero, suc, ◌-◌, ◌≤◌, Bool, true, false, [], ◌∷◌, ◌++◌, if◌then◌else◌, leb, leb→le, length,
  take, drop, length-append, ◌≡◌, refl, arith,
}
use commiter_cli.Base.Str.{Str, lit}
use commiter_cli.Base.Utf8.{valid_string, valid_string-append}
use commiter_cli.Context.Chunk.{
  shrink_end, utf8_prefix, shrink_start, utf8_suffix, head_bytes, truncate_utf8,
}

length-take : (n : ℕ) (s : Str) → length (take n s) ≤ n
length-take zero s = omega arith
length-take (suc n) [] = omega arith
length-take (suc n) (c ∷ s) = omega (arith, length-take n s)

length-drop : (n : ℕ) (s : Str) → length (drop n s) ≡ length s - n
length-drop zero s = omega arith
length-drop (suc n) [] = omega arith
length-drop (suc n) (c ∷ s) = omega (arith, length-drop n s)

empty-valid : valid_string [] ≡ true
unfolding valid_string
empty-valid = refl

shrink_end-fits :
    (n : ℕ) (s : Str) → (length (shrink_end n s) ≤ n) × (valid_string (shrink_end n s) ≡ true)
unfolding shrink_end
shrink_end-fits zero s = (omega arith, empty-valid)
shrink_end-fits (suc n) s = go (valid_string (take (suc n) s)) refl (shrink_end-fits n s)
  where
    go :
        (b : Bool)
        → valid_string (take (suc n) s) ≡ b
        → (length (shrink_end n s) ≤ n) × (valid_string (shrink_end n s) ≡ true)
        → (length (if b then take (suc n) s else shrink_end n s) ≤ suc n)
          × (valid_string (if b then take (suc n) s else shrink_end n s) ≡ true)
    go true e rec = (length-take (suc n) s, e)
    go false e (l, v) = (omega (arith, l), v)

shrink_start-fits :
    (s : Str) → (length (shrink_start s) ≤ length s) × (valid_string (shrink_start s) ≡ true)
unfolding shrink_start
shrink_start-fits [] = (omega arith, empty-valid)
shrink_start-fits (c ∷ s) = go (valid_string (c ∷ s)) refl (shrink_start-fits s)
  where
    go :
        (b : Bool)
        → valid_string (c ∷ s) ≡ b
        → (length (shrink_start s) ≤ length s) × (valid_string (shrink_start s) ≡ true)
        → (length (if b then c ∷ s else shrink_start s) ≤ suc (length s))
          × (valid_string (if b then c ∷ s else shrink_start s) ≡ true)
    go true e rec = (omega arith, e)
    go false e (l, v) = (omega (arith, l), v)

module _ (s : Str) (valid : valid_string s ≡ true) (limit : ℕ) where
  utf8_prefix-fits :
      (length (utf8_prefix s limit) ≤ limit) × (valid_string (utf8_prefix s limit) ≡ true)
  unfolding utf8_prefix
  utf8_prefix-fits = go (leb (length s) limit) refl
    where
      go :
          (b : Bool)
          → leb (length s) limit ≡ b
          → (length (if b then s else shrink_end limit s) ≤ limit)
            × (valid_string (if b then s else shrink_end limit s) ≡ true)
      go true e = (leb→le (length s) limit e, valid)
      go false e = shrink_end-fits limit s

  utf8_suffix-fits :
      (length (utf8_suffix s limit) ≤ limit) × (valid_string (utf8_suffix s limit) ≡ true)
  unfolding utf8_suffix
  utf8_suffix-fits = go (leb (length s) limit) refl
    where
      rest : Str
      rest = drop (length s - limit) s

      longer : leb (length s) limit ≡ false → length rest ≤ limit
      longer e = let l = length-drop (length s - limit) s in ground arith

      go :
          (b : Bool)
          → leb (length s) limit ≡ b
          → (length (if b then s else shrink_start rest) ≤ limit)
            × (valid_string (if b then s else shrink_start rest) ≡ true)
      go true e = (leb→le (length s) limit e, valid)
      go false e = (omega (arith, (shrink_start-fits rest).0, longer e), (shrink_start-fits rest).1)

dots-valid : (n : ℕ) → valid_string (take n (lit "...")) ≡ true
unfolding valid_string
dots-valid zero = refl
dots-valid (suc zero) = refl
dots-valid (suc (suc zero)) = refl
dots-valid (suc (suc (suc zero))) = refl
dots-valid (suc (suc (suc (suc n)))) = refl

head_bytes-bound : (n : ℕ) → head_bytes n ≤ n
unfolding head_bytes
head_bytes-bound n = omega arith

-- A text that is UTF-8 is cut to one that has at most as many bytes as the limit and is UTF-8
-- itself, and stays as it is when it is no longer than the limit.
pub truncate_utf8-fits :
    (s : Str) (limit : ℕ)
    → valid_string s ≡ true
    → (length (truncate_utf8 s limit) ≤ limit)
      × (valid_string (truncate_utf8 s limit) ≡ true)
      × (length s ≤ limit → truncate_utf8 s limit ≡ s)
unfolding truncate_utf8
truncate_utf8-fits s limit valid = go (leb (length s) limit) refl (leb limit 3) refl
  where
    payload : ℕ
    payload = limit - 3

    cut : Str
    cut =
        utf8_prefix s (head_bytes payload)
        ++ lit "..."
        ++ utf8_suffix s (payload - head_bytes payload)

    cut-length : leb limit 3 ≡ false → length cut ≤ limit
    cut-length e =
        let a = (utf8_prefix-fits s valid (head_bytes payload)).0 in
        let b = (utf8_suffix-fits s valid (payload - head_bytes payload)).0 in
        let l1 =
          length-append (utf8_prefix s (head_bytes payload) ++ lit "...")
            (utf8_suffix s (payload - head_bytes payload)) in
        let l2 = length-append (utf8_prefix s (head_bytes payload)) (lit "...") in
        let p = head_bytes-bound payload in ground arith

    cut-valid : valid_string cut ≡ true
    cut-valid =
        valid_string-append _ _
          (valid_string-append _ _ (utf8_prefix-fits s valid (head_bytes payload)).1 (dots-valid 3))
          (utf8_suffix-fits s valid (payload - head_bytes payload)).1

    go :
        (a : Bool)
        → leb (length s) limit ≡ a
        → (b : Bool) → leb limit 3 ≡ b
        → (length (if a then s else if b then take limit (lit "...") else cut) ≤ limit)
          × (valid_string (if a then s else if b then take limit (lit "...") else cut) ≡ true)
          × (length s ≤ limit → (if a then s else if b then take limit (lit "...") else cut) ≡ s)
    go true e b e' = (leb→le (length s) limit e, valid, λ _. refl)
    go false e true e' =
        (length-take limit (lit "..."), dots-valid limit, λ h. absurd (ground arith))
    go false e false e' = (cut-length e', cut-valid, λ h. absurd (ground arith))
