-- ===== src/Trust/Remembers.antt =====
-- internal/trust/store.go: what `Matches` finds after `Approve` and `Revoke`.
use commiter_cli.Base.{
  Bool, true, false, List, [], ◌∷◌, Option, none, some, ◌==◌, ◌≡◌, refl, ap, sym, ◌∙◌, arith,
  if◌then◌else◌,
}
use commiter_cli.Base.Str.{Str, lit, str_eq, str_lt}
use commiter_cli.Trust.Store.{
  Entry, Result, ok, err, Storage, matching, replace_entry, without_repo, sort_entries,
  insert_entry, matches, approve, approve_at, revoke_at, matches_at, kept_or_put, settle, revoke,
  put, open_entries,
}

str_lt_irrefl : (s : Str) → str_lt s s ≡ false
unfolding str_lt
str_lt_irrefl [] = refl
str_lt_irrefl (c ∷ s) = ground (arith, str_lt_irrefl s)

module _ (repo hash : Str) where
  matching-insert_entry :
      (e : Entry) (fs : List Entry)
      → matching repo hash (insert_entry e fs) ≡ matching repo hash (e ∷ fs)
  unfolding insert_entry matching
  matching-insert_entry e [] = refl
  matching-insert_entry e (f ∷ fs) =
      ground (arith, matching-insert_entry e fs, str_lt_irrefl e.repo_path)

  matching-sort_entries :
      (es : List Entry) → matching repo hash (sort_entries es) ≡ matching repo hash es
  unfolding sort_entries matching
  matching-sort_entries [] = refl
  matching-sort_entries (e ∷ es) =
      matching-insert_entry e (sort_entries es)
      ∙ ap (λ b. if e.repo_path == repo then e.definition_hash == hash else b)
          (matching-sort_entries es)

  matching-replace_entry :
      (entry : Entry) (es : List Entry)
      → matching repo hash (replace_entry entry es)
        ≡ (if entry.repo_path == repo then entry.definition_hash == hash else matching repo hash es)
  unfolding replace_entry matching
  matching-replace_entry entry [] = ground arith
  matching-replace_entry entry (e ∷ es) = ground (arith, matching-replace_entry entry es)

  matching-without_repo :
      (other : Str) (es : List Entry)
      → matching repo hash (without_repo other es).0
        ≡ (if other == repo then false else matching repo hash es)
  unfolding without_repo matching
  matching-without_repo other [] = ground arith
  matching-without_repo other (e ∷ es) = ground (arith, matching-without_repo other es)

module _ (S : Storage) where
  put-ok :
      (d d' : S.Disk) (es : List Entry) (b : Bool) → put S d es ≡ (d', ok b) → (S.read d' ≡ ok es)
  unfolding put settle
  put-ok d d' es b h = go (S.write d es) refl h
    where
      go :
          (p : S.Disk × Option Str)
          → S.write d es ≡ p
          → settle S p ≡ (d', ok b)
          → (S.read d' ≡ ok es)
      go (d1, none) e q = ap S.read (sym (ap (λ t. t.0) q)) ∙ S.read-write d d1 es e
      go (d1, some m) e q = cc

  open_entries-ok :
      (d d' : S.Disk) (next : List Entry → S.Disk × Result Bool) (b : Bool)
      → open_entries S d next ≡ (d', ok b)
      → (es : List Entry) × (S.read d ≡ ok es) × (next es ≡ (d', ok b))
  unfolding open_entries
  open_entries-ok d d' next b h = go (S.read d) refl h
    where
      go :
          (r : Result (List Entry))
          → S.read d ≡ r
          → ◌≡◌ {A = S.Disk × Result Bool}
              (elim r [ err m ↦ (d, err m) | ok es ↦ next es ])
              (d', ok b)
          → (es : List Entry) × (S.read d ≡ ok es) × (next es ≡ (d', ok b))
      go (err m) e q = cc
      go (ok es) e q = (es, e, q)

  matches-read :
      (d : S.Disk) (repo c hash : Str) (es : List Entry)
      → S.canonical repo ≡ some c
      → S.read d ≡ ok es
      → matches S d repo hash ≡ ok (matching c hash es)
  unfolding matches matches_at
  matches-read d repo c hash es p q = cc

  approve-writes :
      (d d' : S.Disk) (entry : Entry) (c : Str)
      → S.canonical entry.repo_path ≡ some c
      → approve S d entry ≡ (d', ok true)
      → (es : List Entry) × (S.read d ≡ ok es)
        × (S.read d' ≡ ok (sort_entries (replace_entry (record entry { repo_path = c }) es)))
  unfolding approve approve_at
  approve-writes d d' entry c p h = go _ (sym (ap (approve_at S d entry) p) ∙ h)
    where
      written : List Entry → List Entry
      written es = sort_entries (replace_entry (record entry { repo_path = c }) es)

      go :
          (b : Bool)
          → ◌≡◌ {A = S.Disk × Result Bool}
              (if b
                then (d, err (lit "invalid trust entry"))
                else open_entries S d (λ es. put S d (written es)))
              (d', ok true)
          → (es : List Entry) × (S.read d ≡ ok es)
            × (S.read d' ≡ ok (sort_entries (replace_entry (record entry { repo_path = c }) es)))
      go true q = cc
      go false q = let (es, e, w) = open_entries-ok d d' _ true q in (es, e, put-ok d d' _ true w)

  revoke-writes :
      (d d' : S.Disk) (repo c : Str)
      → S.canonical repo ≡ some c
      → revoke S d repo ≡ (d', ok true)
      → (es : List Entry) × (S.read d ≡ ok es) × (S.read d' ≡ ok (without_repo c es).0)
  unfolding revoke revoke_at kept_or_put
  revoke-writes d d' repo c p h =
      let (es, e, w) = open_entries-ok d d' _ true (sym (ap (revoke_at S d) p) ∙ h) in
      (es, e, go (without_repo c es) w)
    where
      go : (kept : List Entry × Bool) → kept_or_put S d kept ≡ (d', ok true) → S.read d' ≡ ok kept.0
      go (kept, true) w = put-ok d d' kept true w
      go (kept, false) w = cc

  -- After an approval that succeeds, of an entry whose path resolves, every path that resolves to the
  -- same repository matches exactly the approved hash, whatever was approved before, and a path
  -- that resolves to another repository matches what it matched before.
  pub approve-matches :
      (d d' : S.Disk) (entry : Entry) (c : Str)
      → S.canonical entry.repo_path ≡ some c
      → approve S d entry ≡ (d', ok true)
      → (repo c' hash : Str) → S.canonical repo ≡ some c'
      → ((c' ≡ c) → matches S d' repo hash ≡ ok (entry.definition_hash == hash))
        × (¬ (c' ≡ c) → matches S d' repo hash ≡ matches S d repo hash)
  approve-matches d d' entry c p h repo c' hash q =
      let (es, e, w) = approve-writes d d' entry c p h in
      let now =
        matches-read d' repo c' hash _ q w
        ∙ ap ok (
            matching-sort_entries c' hash _
            ∙ matching-replace_entry c' hash (record entry { repo_path = c }) es) in
      let before = matches-read d repo c' hash es q e in
      (λ s. now ∙ ap ok (ground (arith, s)), λ n. now ∙ ap ok (ground (arith, n)) ∙ sym before)

  -- After a revocation that found an entry, every path that resolves to the same repository matches no
  -- hash, and a path that resolves to another repository matches what it matched before.
  pub revoke-matches :
      (d d' : S.Disk) (repo c : Str)
      → S.canonical repo ≡ some c
      → revoke S d repo ≡ (d', ok true)
      → (other c' hash : Str) → S.canonical other ≡ some c'
      → ((c' ≡ c) → matches S d' other hash ≡ ok false)
        × (¬ (c' ≡ c) → matches S d' other hash ≡ matches S d other hash)
  revoke-matches d d' repo c p h other c' hash q =
      let (es, e, w) = revoke-writes d d' repo c p h in
      let now = matches-read d' other c' hash _ q w ∙ ap ok (matching-without_repo c' hash c es) in
      let before = matches-read d other c' hash es q e in
      (λ s. now ∙ ap ok (ground (arith, s)), λ n. now ∙ ap ok (ground (arith, n)) ∙ sym before)
