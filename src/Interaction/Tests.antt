-- ===== src/Interaction/Tests.antt =====
-- A repository with one remote and no upstream.
use commiter_cli.Interaction.Review.{approve, reject_eof, Read, line, Terminal, review}
use commiter_cli.Interaction.Review.Consent.{Consents, review-Consents}
use commiter_cli.Base.{
  List, map, none, ◌+◌, leb, ◌&&◌, ◌≡◌, refl, true, false, [], ◌∷◌, ◌++◌, some, if◌then◌else◌,
  contains, ap,
}
use commiter_cli.Base.Str.{
  lit, str_eq, any, has_prefix, trim_prefix, trim_space, fields_func, is_space,
}
use commiter_cli.Interaction.PushTarget.{
  PushTarget, Git, safe_name, safe_remote, valid_branch, git, upstream_or, contains_remote,
  only_remote, resolve_push_target,
}
use commiter_cli.Interaction.Push.{PushHost, pushed, push}
use commiter_cli.Interaction.Push.Sends.{Sends, push-Sends}
use commiter_cli.Interaction.Safe.{IsSafe, resolve_push_target-IsSafe}

abbrev one_remote : Git
one_remote = record {
  output = λ args.
      if contains args (lit "symbolic-ref")
      then lit "main" ++ (10 ∷ [])
      else if contains args (lit "remote")
      then lit "origin" ++ (10 ∷ [])
      else [];
  check_ref_format = λ name. true;
}

target : resolve_push_target one_remote ≡ record {
  remote = lit "origin";
  branch = lit "main";
  resolved = true;
  set_upstream = true;
  reason = [];
}
unfolding resolve_push_target str_eq any has_prefix trim_prefix trim_space fields_func is_space
    safe_name safe_remote valid_branch git upstream_or contains_remote only_remote
target = refl

resolve_push_target-IsSafe_example : IsSafe one_remote (resolve_push_target one_remote)
resolve_push_target-IsSafe_example =
    resolve_push_target-IsSafe one_remote (ap (λ (t : PushTarget). t.resolved) target)

abbrev online : PushHost
online = record { absolute = λ root. some root; run = λ args. true; interrupted = false }

abbrev origin : PushTarget
origin = record {
  remote = lit "origin";
  branch = lit "main";
  resolved = true;
  set_upstream = true;
  reason = [];
}

succeeded : (push online (lit "/r") origin).0 ≡ pushed
unfolding push
succeeded = refl

push-Sends_example : Sends online (lit "/r") origin (push online (lit "/r") origin)
push-Sends_example = push-Sends online (lit "/r") origin

-- A dialogue with one line that is no choice, and then a yes.
abbrev terminal : Terminal
terminal = record {
  connected = true;
  print_error = λ n. none;
  to_lower = map (λ c. if leb b'A' c && leb c b'Z' then c + 32 else c);
}

abbrev answers : List Read
answers = line (lit "maybe" ++ 10 ∷ []) ∷ line (lit "Yes" ++ 10 ∷ []) ∷ []

approved : (review terminal answers).0 ≡ approve
unfolding review str_eq trim_space
approved = refl

no_answer : (review terminal []).0 ≡ reject_eof
unfolding review
no_answer = refl

review-Consents_example : Consents terminal answers
review-Consents_example = review-Consents terminal answers approved
