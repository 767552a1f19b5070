-- ===== src/Pm/StateMap.antt =====
-- The map of the workflow states in pm/actions/promote.ts, whose keys are a team and a name.
use urateam.Prelude.{String, [], ◌∷◌, if◌then◌else◌, Assoc, insert, ends_with, before_colon}

-- The states by team, of the keys that end in `:Todo`; a later entry of a team replaces an earlier one.
unfoldable pub todo_states_after :
    (states : Assoc String) → (state_map : Assoc String) → Assoc String
unfolding ends_with before_colon insert
todo_states_after states [] = states
todo_states_after states ((key, id) ∷ rest) =
    todo_states_after
      (if ends_with ":Todo" key then insert (before_colon key) id states else states) rest

abbrev pub todo_states : (state_map : Assoc String) → Assoc String
todo_states state_map = todo_states_after [] state_map
