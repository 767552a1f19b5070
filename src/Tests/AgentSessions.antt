-- ===== src/Tests/AgentSessions.antt =====
-- The sessions of packages/core/src/executor, on one run whose transcript exists.
use Prim.Native.String
use urateam.Prelude.{
  ℕ, ◌≡◌, refl, ◌↔◌, String, Bool, true, false, Option, some, [], ◌∷◌, str_eq, includes,
}
use urateam.Executor.Sessions.{
  is_always_fresh_stage, model_family, is_resumable, encode_cwd, transcript_path,
  ResolveSessionOptsParams, resume, session_id, agent_session_resumed, given, resolve_with,
  resolve_from, resolve_session_opts,
}
use urateam.Executor.Resume.{HasSession, resolve_session_opts_iff}

abbrev join : String → String → String → String
join root dir file = String.◌++◌ root (String.◌++◌ "/" (String.◌++◌ dir (String.◌++◌ "/" file)))

abbrev exists : String → Bool
exists path = str_eq path "/p/-w-a/s1.jsonl"

abbrev count_lines : String → Option ℕ
count_lines path = some 12

abbrev params : ResolveSessionOptsParams
params = record {
  stage = "review";
  model = some "claude-sonnet-4";
  agent_session_id = some "s1";
  workdir = "/w/a";
  run_id = some "r1";
  issue_id = some "i1";
  has_db = true;
}

resumes :
    resolve_session_opts join "/p" exists count_lines params
    ≡ (resume "s1", agent_session_resumed "r1" "i1" "s1" "review" 12 ∷ [])
unfolding resolve_session_opts resolve_from resolve_with transcript_path encode_cwd is_resumable
    is_always_fresh_stage model_family includes
resumes = refl

resolve_session_opts_iff_example :
    let opts = (resolve_session_opts join "/p" exists count_lines params).0 in
    let present = exists (transcript_path join "/p" "/w/a" "s1") in
    let has = HasSession "review" (some "s1") (given (some "claude-sonnet-4")) "s1" in
    (opts ≡ resume "s1" ↔ (has × (present ≡ true)))
    × (opts ≡ session_id "s1" ↔ (has × (present ≡ false)))
resolve_session_opts_iff_example = resolve_session_opts_iff join "/p" exists count_lines params "s1"
