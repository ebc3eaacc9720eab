-- ===== src/Trust/Tests.antt =====
-- An approval and a revocation over a file that is kept in memory.
use commiter_cli.Base.{◌≡◌, refl, ap, sym, true, false, List, [], ◌∷◌, Option, none, some, ◌==◌}
use commiter_cli.Base.Str.{Str, lit, str_eq, str_lt}
use commiter_cli.Trust.Store.{
  Entry, ok, Storage, matches, approve, revoke, sort_entries, replace_entry, without_repo,
}
use commiter_cli.Trust.Remembers.{approve-matches, revoke-matches}

abbrev memory : Storage
memory = record {
  Disk = List Entry;
  canonical = λ path. some path;
  read = λ d. ok d;
  write = λ d es. (es, none);
  read-write = λ d d' es h. ap (λ (p : List Entry × Option Str). ok p.0) (sym h);
}

abbrev entry : Entry
entry = record {
  repo_path = lit "/b";
  definition_hash = lit "h2";
  source_type = lit "override";
  commands = (lit "go" ∷ lit "test" ∷ []) ∷ [];
}

abbrev other : Entry
other = record entry { repo_path = lit "/a"; definition_hash = lit "h1" }

approved : approve memory (other ∷ []) entry ≡ (other ∷ entry ∷ [], ok true)
unfolding approve sort_entries replace_entry str_eq str_lt
approved = refl

revoked : revoke memory (other ∷ entry ∷ []) (lit "/b") ≡ (other ∷ [], ok true)
unfolding revoke without_repo str_eq
revoked = refl

approve-matches_example :
    ((lit "/b" ≡ lit "/b")
      → matches memory (other ∷ entry ∷ []) (lit "/b") (lit "h2")
        ≡ ok (entry.definition_hash == lit "h2"))
    × (¬ (lit "/b" ≡ lit "/b")
        → matches memory (other ∷ entry ∷ []) (lit "/b") (lit "h2")
          ≡ matches memory (other ∷ []) (lit "/b") (lit "h2"))
approve-matches_example =
    approve-matches memory (other ∷ []) (other ∷ entry ∷ []) entry (lit "/b") refl approved
      (lit "/b") (lit "/b") (lit "h2") refl

revoke-matches_example :
    ((lit "/a" ≡ lit "/b") → matches memory (other ∷ []) (lit "/a") (lit "h1") ≡ ok false)
    × (¬ (lit "/a" ≡ lit "/b")
        → matches memory (other ∷ []) (lit "/a") (lit "h1")
          ≡ matches memory (other ∷ entry ∷ []) (lit "/a") (lit "h1"))
revoke-matches_example =
    revoke-matches memory (other ∷ entry ∷ []) (other ∷ []) (lit "/b") (lit "/b") refl revoked
      (lit "/a") (lit "/a") (lit "h1") refl
