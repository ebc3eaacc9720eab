-- ===== src/Planning/ThreePhase/Encoding.antt =====
-- An encoding of plans as numbers, and a decoder that reads it back, for the tests.
use commiter_cli.Base.{
  ◌≡◌, refl, ℕ, zero, suc, Bool, true, false, List, [], ◌∷◌, map, some, length, eqb, if◌then◌else◌,
  ◌==◌,
}
use commiter_cli.Base.Int.{pos, int_eq}
use commiter_cli.Base.Str.{Str, lit, str_eq, trim_space}
use commiter_cli.Planning.ThreePhase.{plan_of}
use commiter_cli.Planning.Types.{Commit, Plan, violation_eq}
use commiter_cli.Planning.Validate.{
  WireCommit, Json, decode_plan, wire_breaking, wire_version, wire_commit, all_breaking, wire_plan,
}

-- Texts end with 0, lists begin with their length.
unfoldable pub put_text : Str → Str → Str
put_text [] r = 0 ∷ r
put_text (c ∷ s) r = suc c ∷ put_text s r

unfoldable pub text_of : Str → Str × Str
text_of [] = ([], [])
text_of (zero ∷ r) = ([], r)
text_of (suc c ∷ r) = let rest = text_of r in (c ∷ rest.0, rest.1)

text_of-put_text : (s r : Str) → text_of (put_text s r) ≡ (s, r)
unfolding text_of put_text
text_of-put_text [] r = refl
text_of-put_text (c ∷ s) r = rw (text_of-put_text s r) refl

unfoldable pub put_texts : List Str → Str → Str
put_texts [] r = r
put_texts (s ∷ ss) r = put_text s (put_texts ss r)

unfoldable pub texts_of : ℕ → Str → List Str × Str
texts_of zero r = ([], r)
texts_of (suc n) r = let s = text_of r in let rest = texts_of n s.1 in (s.0 ∷ rest.0, rest.1)

texts_of-put_texts : (ss : List Str) (r : Str) → texts_of (length ss) (put_texts ss r) ≡ (ss, r)
unfolding texts_of put_texts
texts_of-put_texts [] r = refl
texts_of-put_texts (s ∷ ss) r =
    rw (text_of-put_text s (put_texts ss r), texts_of-put_texts ss r) refl

unfoldable pub put_commits : List Commit → Str → Str
put_commits [] r = r
put_commits (c ∷ cs) r = put_text c.type (
    put_text c.scope (
      (if c.breaking then 1 else 0)
      ∷ put_text c.summary (length c.file_ids ∷ put_texts c.file_ids (put_commits cs r))))

unfoldable pub head_of : Str → ℕ
head_of [] = 0
head_of (n ∷ r) = n

unfoldable pub tail_of : Str → Str
tail_of [] = []
tail_of (n ∷ r) = r

unfoldable pub commits_of : ℕ → Str → List WireCommit × Str
commits_of zero r = ([], r)
commits_of (suc n) r =
    let type = text_of r in
    let scope = text_of type.1 in
    let summary = text_of (tail_of scope.1) in
    let ids = texts_of (head_of summary.1) (tail_of summary.1) in
    let rest = commits_of n ids.1 in
    (
      record {
        type = type.0;
        scope = scope.0;
        breaking = if eqb (head_of scope.1) 1 then lit "true" else lit "false";
        summary = summary.0;
        file_ids = ids.0;
      }
          ∷ rest.0,
      rest.1,
    )

unfoldable pub encode : Plan → Str
encode p = length p.commits ∷ put_commits p.commits []

unfoldable pub json : Json
json = record {
  valid = λ s. true;
  decode = λ s.
      some (record { schema_version = lit "1"; commits = (commits_of (head_of s) (tail_of s)).0 });
  at_eof = λ s. true;
  int = λ s. some (pos 1);
  bool = λ s. some (s == lit "true");
}

wire_of : Commit → WireCommit
wire_of c = record {
  type = c.type;
  scope = c.scope;
  breaking = if c.breaking then lit "true" else lit "false";
  summary = c.summary;
  file_ids = c.file_ids;
}

flag_text :
    (b : Bool)
    → (if eqb (if b then 1 else 0) 1 then lit "true" else lit "false")
      ≡ (if b then lit "true" else lit "false")
flag_text true = refl
flag_text false = refl

commits_of-put_commits :
    (cs : List Commit) (r : Str) → commits_of (length cs) (put_commits cs r) ≡ (map wire_of cs, r)
unfolding commits_of put_commits head_of tail_of wire_of
commits_of-put_commits [] r = refl
commits_of-put_commits (c ∷ cs) r =
    rw
      (
        text_of-put_text c.type _,
        text_of-put_text c.scope _,
        text_of-put_text c.summary _,
        texts_of-put_texts c.file_ids _,
        commits_of-put_commits cs r,
        flag_text c.breaking,
      )
      refl

wire_breaking-flag :
    (b : Bool) → wire_breaking json (if b then lit "true" else lit "false") ≡ (b, true)
unfolding wire_breaking trim_space str_eq json
wire_breaking-flag true = refl
wire_breaking-flag false = refl

wire_commit-wire_of : (c : Commit) → wire_commit json (wire_of c) ≡ c
unfolding wire_commit wire_of
wire_commit-wire_of c = rw (wire_breaking-flag c.breaking) refl

map-wire_of : (cs : List Commit) → map (wire_commit json) (map wire_of cs) ≡ cs
map-wire_of [] = refl
map-wire_of (c ∷ cs) = rw (wire_commit-wire_of c, map-wire_of cs) refl

all_breaking-wire_of : (cs : List Commit) → all_breaking json (map wire_of cs) ≡ true
unfolding all_breaking wire_of
all_breaking-wire_of [] = refl
all_breaking-wire_of (c ∷ cs) = rw (wire_breaking-flag c.breaking, all_breaking-wire_of cs) refl

pub reads_back : (cs : List Commit) → decode_plan json (encode (plan_of cs)) ≡ (plan_of cs, [])
unfolding decode_plan wire_plan json encode head_of tail_of wire_version trim_space str_eq
reads_back cs = rw (commits_of-put_commits cs [], map-wire_of cs, all_breaking-wire_of cs) refl
