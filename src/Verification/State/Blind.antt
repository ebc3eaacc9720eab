-- ===== src/Verification/State/Blind.antt =====
-- internal/verification/state.go: the content of a path that is excluded is not looked at.
use commiter_cli.Base.{
  ℕ, Bool, true, false, List, [], ◌∷◌, ◌++◌, Option, none, some, if◌then◌else◌, ◌≡◌, refl, ap, sym,
  ◌∙◌, contains, eqb, is_nil, is_nil-false, ◌≢◌, ◌⊎◌, inl, inr,
}
use commiter_cli.Base.Dict.{insert}
use commiter_cli.Base.Result.{Result, ok, err, ◌>>=◌, >>=-agree}
use commiter_cli.Base.Str.{Str, lit, str_eq, split, trim_suffix}
use commiter_cli.Gitstate.Errors
use commiter_cli.Gitstate.Sensitive.{Glob, Sensitivity, classify_sensitive, content_read_allowed}
use commiter_cli.Gitstate.Sensitive.Policy.{MayRead, content_read_allowed_iff}
use commiter_cli.Gitstate.Types.{identity_eq}
use commiter_cli.Verification.Records.{
  cannot_parse, untracked_record, ordinary_record, renamed_record, Visible,
}
use commiter_cli.Verification.State.{
  hash_of, metadata_at, one_record, one_or_two, WorkTree, StatePolicy, Files, Meta, Lstat, found,
  missing, failed, content_identity, file_metadata, content_hash_allowed, add_state, add_visible,
  read_states, status_file_states,
}
use mathlib.Core.Path.{fun_ext}
use mathlib.Core.Bool.{false≢true}

-- The content of a path may be read: it is harmless, or a candidate in an approved change.
abbrev pub IsReadable : Glob → List Str → Bool → Str → Type 0
IsReadable glob additional approved p =
    (c : Sensitivity × Str) × (classify_sensitive glob p additional ≡ Errors.ok c)
    × MayRead c.0 approved

module _ (glob : Glob) (policy : StatePolicy) where
  -- A visible change shows the content of its path if its path, and the path it was renamed from,
  -- may both be read.
  pub record IsShown (v : Visible) : Type 0 where
    pub new :
        IsReadable glob policy.additional_sensitive
          (contains policy.approved_sensitive v.identity)
          v.path
    pub old :
        v.old_path ≢ []
        → IsReadable glob policy.additional_sensitive
            (contains policy.approved_sensitive v.identity)
            v.old_path

  -- The change that a record of the status tells of, with the field behind it.
  unfoldable pub record_of : ℕ → Str → Option Str → Result (Option Visible)
  record_of c text next =
      if eqb c b'?'
      then untracked_record policy.target_untracked (c ∷ text)
      else if eqb c b'1'
      then ordinary_record (c ∷ text)
      else if eqb c b'2'
      then renamed_record (c ∷ text) next
      else ok none

  abbrev pub ShowsRecord : ℕ → Str → Option Str → Str → Type 0
  ShowsRecord c text next p =
      (v : Visible) × (record_of c text next ≡ ok (some v)) × (v.path ≡ p) × IsShown v

  -- One of the records of the status shows the content of a path.
  unfoldable pub Shows : List Str → Str → Type 0
  Shows [] p = ⊥
  Shows ([] ∷ rest) p = Shows rest p
  Shows ((c ∷ text) ∷ []) p = ShowsRecord c text none p
  Shows ((c ∷ text) ∷ (next ∷ rest)) p =
      ShowsRecord c text (some next) p
      ⊎ (if eqb c b'2' then Shows rest p else Shows (next ∷ rest) p)

abbrev pub AgreeAt : WorkTree → WorkTree → Str → Type 0
AgreeAt T U p = (T.readlink p ≡ U.readlink p) × (T.read_file p ≡ U.read_file p)

-- Two work trees with the same metadata.
pub record SameMetadata (T U : WorkTree) : Type 0 where
  pub lstat : (p : Str) → T.lstat p ≡ U.lstat p
  pub sha256_hex : T.sha256_hex ≡ U.sha256_hex

module _ (glob : Glob) (policy : StatePolicy) (T U : WorkTree) (a : SameMetadata T U) where
  same_hash : (o : Option Str) (m : Str) → hash_of T o m ≡ hash_of U o m
  unfolding hash_of
  same_hash none m = refl
  same_hash (some content) m = ap (λ f. ok (f content)) a.sha256_hex

  content_identity-blind :
      (p : Str) (m : Meta) → AgreeAt T U p → content_identity T p m ≡ content_identity U p m
  unfolding content_identity
  content_identity-blind p m (l, r) =
      rw
        (
          l,
          r,
          same_hash (U.readlink p) (lit "cannot hash Git-visible symlink"),
          same_hash (U.read_file p) (lit "cannot hash Git-visible file"),
        )
        refl

  content_hash_allowed-cons :
      (b : Bool) (p : Str) (ps : List Str)
      → content_hash_allowed glob policy.additional_sensitive b (p ∷ ps) ≡ ok true
      → IsReadable glob policy.additional_sensitive b p
        × (content_hash_allowed glob policy.additional_sensitive b ps ≡ ok true)
  unfolding content_hash_allowed
  content_hash_allowed-cons b p ps h =
      go (content_read_allowed glob p policy.additional_sensitive b) refl h
    where
      go :
          (r : Errors.Result Bool)
          → content_read_allowed glob p policy.additional_sensitive b ≡ r
          → (elim r [
            | Errors.err k m ↦ err m
            | Errors.ok false ↦ ok false
            | Errors.ok true ↦ content_hash_allowed glob policy.additional_sensitive b ps
          ])
            ≡ ok true
          → IsReadable glob policy.additional_sensitive b p
            × (content_hash_allowed glob policy.additional_sensitive b ps ≡ ok true)
      go (Errors.err k m) e h = cc
      go (Errors.ok false) e h = cc
      go (Errors.ok true) e h =
          ((content_read_allowed_iff glob p policy.additional_sensitive b).0 e, h)

  file_metadata-blind :
      (p line : Str) (b : Bool)
      → (b ≡ true → (m : Meta) → content_identity T p m ≡ content_identity U p m)
      → file_metadata T p line b ≡ file_metadata U p line b
  unfolding file_metadata metadata_at
  file_metadata-blind p line b h = ap (metadata_at T p line b) (a.lstat p) ∙ go (U.lstat p) b h
    where
      go :
          (l : Lstat) (b : Bool)
          → (b ≡ true → (m : Meta) → content_identity T p m ≡ content_identity U p m)
          → metadata_at T p line b l ≡ metadata_at U p line b l
      go failed b h = refl
      go missing b h = refl
      go (found m) false h = refl
      go (found m) true h = rw (h refl m) refl

  -- If the content of a change is hashed, then the change shows it.
  hashed-IsShown :
      (v : Visible) (b : Bool)
      → is_nil v.old_path ≡ b
      → content_hash_allowed glob policy.additional_sensitive
          (contains policy.approved_sensitive v.identity)
          (if b then v.path ∷ [] else v.path ∷ v.old_path ∷ [])
        ≡ ok true
      → IsShown glob policy v
  hashed-IsShown v true e h =
      let (new, _) = content_hash_allowed-cons _ v.path [] h in
      record {
        new = new;
        old = λ named. absurd (false≢true (sym ((is_nil-false v.old_path).1 named) ∙ e));
      }
  hashed-IsShown v false e h =
      let (new, rest) = content_hash_allowed-cons _ v.path (v.old_path ∷ []) h in
      let (old, _) = content_hash_allowed-cons _ v.old_path [] rest in
      record { new = new; old = λ _. old }

  add_state-blind :
      (v : Visible) (files : Files)
      → (IsShown glob policy v → AgreeAt T U v.path)
      → add_state T glob policy v files ≡ add_state U glob policy v files
  unfolding add_state
  add_state-blind v files agree = go (is_nil v.old_path) refl
    where
      approved : Bool
      approved = contains policy.approved_sensitive v.identity

      metadata :
          (none_old b : Bool)
          → is_nil v.old_path ≡ none_old
          → content_hash_allowed glob policy.additional_sensitive approved
              (if none_old then v.path ∷ [] else v.path ∷ v.old_path ∷ [])
            ≡ ok b
          → file_metadata T v.path v.line b ≡ file_metadata U v.path v.line b
      metadata none_old b n h = file_metadata-blind v.path v.line b (λ e m.
          content_identity-blind v.path m (agree (hashed-IsShown v none_old n (h ∙ ap ok e))))

      old :
          file_metadata T v.old_path (v.line ++ (0 ∷ v.old_path)) false
          ≡ file_metadata U v.old_path (v.line ++ (0 ∷ v.old_path)) false
      old = file_metadata-blind v.old_path _ false (λ e. cc)

      go :
          (b : Bool)
          → is_nil v.old_path ≡ b
          → (content_hash_allowed glob policy.additional_sensitive approved
                (if b then v.path ∷ [] else v.path ∷ v.old_path ∷ [])
              >>= λ hash_content.
                  (if b
                    then ok files
                    else (file_metadata T v.old_path (v.line ++ (0 ∷ v.old_path)) false >>= λ s.
                        ok (insert files v.old_path s)))
                  >>= λ with_old. file_metadata T v.path v.line hash_content >>= λ s.
                      ok (insert with_old v.path s))
            ≡ (content_hash_allowed glob policy.additional_sensitive approved
                  (if b then v.path ∷ [] else v.path ∷ v.old_path ∷ [])
                >>= λ hash_content.
                    (if b
                      then ok files
                      else (file_metadata U v.old_path (v.line ++ (0 ∷ v.old_path)) false >>= λ s.
                          ok (insert files v.old_path s)))
                    >>= λ with_old. file_metadata U v.path v.line hash_content >>= λ s.
                        ok (insert with_old v.path s))
      go true n = >>=-agree _ (λ b h. rw (metadata true b n h) refl)
      go false n = >>=-agree _ (λ b h. rw (old, metadata false b n h) refl)

  add_visible-blind :
      (r : Result (Option Visible)) (files : Files)
      → ((v : Visible) → r ≡ ok (some v) → IsShown glob policy v → AgreeAt T U v.path)
      → add_visible T glob policy r files ≡ add_visible U glob policy r files
  unfolding add_visible
  add_visible-blind (err m) files agree = refl
  add_visible-blind (ok none) files agree = refl
  add_visible-blind (ok (some v)) files agree = add_state-blind v files (agree v refl)

  one_record-blind :
      (c : ℕ) (text : Str) (next : Option Str) (files : Files)
      → ((p : Str) → ShowsRecord glob policy c text next p → AgreeAt T U p)
      → one_record T glob policy c text next files ≡ one_record U glob policy c text next files
  unfolding one_record record_of
  one_record-blind c text next files agree =
      go (eqb c b'?') (eqb c b'1') (eqb c b'2') (λ v e s. agree v.path (v, e, refl, s))
    where
      go :
          (untracked ordinary renamed : Bool)
          → ((v : Visible)
              → (if untracked
                  then untracked_record policy.target_untracked (c ∷ text)
                  else if ordinary
                  then ordinary_record (c ∷ text)
                  else if renamed
                  then renamed_record (c ∷ text) next
                  else ok none)
                ≡ ok (some v)
              → IsShown glob policy v
              → AgreeAt T U v.path)
          → (if untracked
              then add_visible T glob policy
                  (untracked_record policy.target_untracked (c ∷ text))
                  files
              else if ordinary
              then add_visible T glob policy (ordinary_record (c ∷ text)) files
              else if renamed
              then add_visible T glob policy (renamed_record (c ∷ text) next) files
              else if eqb c b'u'
              then err (lit "repository has unresolved conflicts")
              else cannot_parse)
            ≡ (if untracked
                then add_visible U glob policy
                    (untracked_record policy.target_untracked (c ∷ text))
                    files
                else if ordinary
                then add_visible U glob policy (ordinary_record (c ∷ text)) files
                else if renamed
                then add_visible U glob policy (renamed_record (c ∷ text) next) files
                else if eqb c b'u'
                then err (lit "repository has unresolved conflicts")
                else cannot_parse)
      go true ordinary renamed h = add_visible-blind _ files h
      go false true renamed h = add_visible-blind _ files h
      go false false true h = add_visible-blind _ files h
      go false false false h = refl

  read_states-blind :
      (records : List Str) (files : Files)
      → ((p : Str) → Shows glob policy records p → AgreeAt T U p)
      → read_states T glob policy records files ≡ read_states U glob policy records files
  unfolding read_states one_or_two Shows
  read_states-blind [] files agree = refl
  read_states-blind ([] ∷ rest) files agree = read_states-blind rest files agree
  read_states-blind ((c ∷ text) ∷ []) files agree = one_record-blind c text none files agree
  read_states-blind ((c ∷ text) ∷ (next ∷ rest)) files agree =
      go (eqb c b'2') (λ p s. agree p (inr s)) (λ h. fun_ext (λ m. read_states-blind rest m h))
        (λ h. fun_ext (λ m. read_states-blind (next ∷ rest) m h))
    where
      one :
          one_record T glob policy c text (some next) files
          ≡ one_record U glob policy c text (some next) files
      one = one_record-blind c text (some next) files (λ p s. agree p (inl s))

      go :
          (b : Bool)
          → ((p : Str)
              → (if b then Shows glob policy rest p else Shows glob policy (next ∷ rest) p)
              → AgreeAt T U p)
          → (((p : Str) → Shows glob policy rest p → AgreeAt T U p)
              → read_states T glob policy rest ≡ read_states U glob policy rest)
          → (((p : Str) → Shows glob policy (next ∷ rest) p → AgreeAt T U p)
              → read_states T glob policy (next ∷ rest) ≡ read_states U glob policy (next ∷ rest))
          → one_or_two T glob policy c text next files b
              (read_states T glob policy rest)
              (read_states T glob policy (next ∷ rest))
            ≡ one_or_two U glob policy c text next files b
                (read_states U glob policy rest)
                (read_states U glob policy (next ∷ rest))
      go true h e e' = rw (one, e h) refl
      go false h e e' = rw (one, e' h) refl

  -- The states of the files, by which a command is found to have changed something, are the same for
  -- two work trees with the same metadata that differ in contents which no record of the status shows.
  -- A record shows the content of its path only if that path, and the path that it was renamed from,
  -- are each harmless, or candidates in an approved change: so no approval makes the content of an
  -- excluded path show, and no rename from such a path does.
  pub status_file_states-blind :
      (status : Str)
      → ((p : Str) → Shows glob policy (split 0 (trim_suffix status (0 ∷ []))) p → AgreeAt T U p)
      → status_file_states T glob policy status ≡ status_file_states U glob policy status
  unfolding status_file_states
  status_file_states-blind status agree =
      read_states-blind (split 0 (trim_suffix status (0 ∷ []))) [] agree
