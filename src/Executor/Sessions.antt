-- ===== src/Executor/Sessions.antt =====
-- executor/session-policy.ts, session-store.ts and session-resolver.ts. `join` is that of the path
-- module of Node; `exists` and `count_lines` are what the file system answers for a path.
use Prim.Native.String
use Prim.Native.Char.{Char, code}
use text.Mathlib.Text.{starts_with}
use urateam.Prelude.{
  ℕ, String, Bool, true, false, ◌||◌, not, Option, none, some, List, [], ◌∷◌, ◌==◌, if◌then◌else◌,
  or_else, str_eq, includes,
}

abbrev always_fresh_stages : List String
always_fresh_stages = "validate" ∷ "ralph-check" ∷ []

unfoldable pub is_always_fresh_stage : String → Bool
is_always_fresh_stage stage = includes always_fresh_stages stage

pub data ModelFamily : Type 0 where
  claude haiku other : ModelFamily

unfoldable pub model_family : String → ModelFamily
model_family model =
    if starts_with model "claude-haiku"
    then haiku
    else if starts_with model "claude-"
    then claude
    else other

abbrev is_claude : ModelFamily → Bool
is_claude claude = true
is_claude _ = false

unfoldable pub is_resumable : (stage model : String) → Bool
unfolding is_always_fresh_stage model_family
is_resumable stage model =
    if is_always_fresh_stage stage then false else is_claude (model_family model)

abbrev is_true : Option String → Bool
is_true none = false
is_true (some value) = str_eq value "true"

-- By the value of `URATEAM_DISABLE_AGENT_SESSION_RESUME`.
unfoldable is_agent_session_resume_enabled : Option String → Bool
is_agent_session_resume_enabled disable = not (is_true disable)

abbrev encode_char : Char → Char
encode_char c = if code c == b'/' || code c == b'\\' then Prim.Native.String.char_at "-" 0 else c

-- `cwd.replace(/[\/\\]/g, "-")`
unfoldable pub encode_cwd : String → String
encode_cwd String.[] = ""
encode_cwd (String.◌∷◌ c s) = String.◌∷◌ (encode_char c) (encode_cwd s)

module _ (join : String → String → String → String) where
  unfoldable pub transcript_path : (projects_root cwd session_id : String) → String
  transcript_path projects_root cwd session_id =
      join projects_root (encode_cwd cwd) (String.◌++◌ session_id ".jsonl")

-- The run that audit events are written for, where the caller gives all of it.
pub record ResolveSessionOptsParams : Type 0 where
  pub stage : String
  pub model : Option String
  pub agent_session_id : Option String
  pub workdir : String
  pub run_id : Option String
  pub issue_id : Option String
  pub has_db : Bool

pub data SessionOpts : Type 0 where
  fresh : SessionOpts
  session_id : String → SessionOpts
  resume : String → SessionOpts

pub data SessionEvent : Type 0 where
  agent_session_resumed :
      (run_id issue_id id stage : String) (prior_message_count : ℕ) → SessionEvent

-- `db && runId && issueId`: an empty text counts as absent.
abbrev pub given : Option String → Option String
given none = none
given (some value) = if str_eq value "" then none else some value

-- The event, with the count 0 where the transcript cannot be read.
abbrev resumed_event :
    Bool → Option String → Option String → String → String → Option ℕ → List SessionEvent
resumed_event true (some run_id) (some issue_id) id stage count =
    agent_session_resumed run_id issue_id id stage (or_else count 0) ∷ []
resumed_event _ _ _ id stage count = []

module _ (join : String → String → String → String) (projects_root : String)
    (exists : String → Bool) (count_lines : String → Option ℕ) where
  -- The body below the early returns.
  unfoldable pub resolve_with : ResolveSessionOptsParams → String → SessionOpts × List SessionEvent
  unfolding transcript_path
  resolve_with params id =
      let path = transcript_path join projects_root params.workdir id in
      if not (exists path) then (session_id id, []) else (
        resume id,
        resumed_event params.has_db (given params.run_id) (given params.issue_id) id params.stage
            (count_lines path),
      )

  -- By the session and by the model; the model is no empty text.
  unfoldable pub resolve_from :
      ResolveSessionOptsParams → Option String → Option String → SessionOpts × List SessionEvent
  resolve_from params (some id) (some model) =
      if is_resumable params.stage model then resolve_with params id else (fresh, [])
  resolve_from params _ _ = (fresh, [])

  unfoldable pub resolve_session_opts : ResolveSessionOptsParams → SessionOpts × List SessionEvent
  resolve_session_opts params = resolve_from params params.agent_session_id (given params.model)
