-- ===== src/Context/Tests.antt =====
-- A context that keeps two recent messages.
use package.text.Mathlib.Text.{◌==◌}
use project_kernel_runtime.Base.{
  ◌≡◌, refl, map, none, some, String, List, [], ◌∷◌, ◌++◌, All, slice_last, arith,
}
use project_kernel_runtime.Base.Dict.{Dict}
use project_kernel_runtime.Context.{
  Message, SessionContext, TextTools, new_context, add_message, windows_then, build_for_ui,
}
use project_kernel_runtime.Context.History.{
  NewMessage, numbered, Ordered, all_messages, add_messages, history_is_kept,
}
use project_kernel_runtime.Store.{SessionModel, MessageModel, Db, find, pos}
use project_kernel_runtime.Context.Persistence.{
  text_or, IsDrawn, persist_to_db, IsUnique, rows_with, persist_to_db_total,
}
use project_kernel_runtime.Context.Checkpoint.{CheckpointManager, Event}

abbrev plain_text : TextTools
plain_text = record {
  lower = λ s. s;
  contains = λ a b. a == b;
  find_files = λ s. s ∷ [];
  key_topics_of = λ texts. [];
}

abbrev says : String → NewMessage
says s = record { role = "user"; content = s; task_id = none }

abbrev four : List NewMessage
four = says "a" ∷ says "b" ∷ says "c" ∷ says "d" ∷ []

abbrev empty_context : SessionContext
empty_context = new_context "s1" "u1"

history_is_kept_example :
    build_for_ui 3 (add_messages plain_text 2 four empty_context)
    ≡ slice_last 3 (all_messages empty_context ++ numbered empty_context.last_sequence four)
unfolding new_context windows_then Ordered
history_is_kept_example = history_is_kept plain_text 2 3 four empty_context tt

abbrev full : SessionContext
full = add_messages plain_text 2 (says "a" ∷ says "b" ∷ []) empty_context

abbrev nothing_written : CheckpointManager
nothing_written = record { dirty_sessions = []; persisted = [] }

abbrev cached : Dict SessionContext
cached = ("s1", full) ∷ ("s2", new_context "s2" "u1") ∷ []

abbrev busy : List Event
busy =
    Event.message (record { session_id = "s1"; role = "user"; content = "c"; task_id = none })
    ∷ Event.tick
    ∷ []

abbrev local_row : SessionModel
local_row = record {
  id = "s1";
  tenant_id = "local";
  user_role = "developer";
  risk_mode = "auto";
  mounted_folders = [];
  context = [];
}

abbrev no_messages : Db
no_messages = record { sessions = local_row ∷ []; tasks = []; messages = []; tenants = [] }

abbrev local_message : Message → MessageModel
local_message m = record {
  tenant_id = "local";
  session_id = "s1";
  task_id = text_or m.task_id;
  role = m.role;
  content = m.content;
  tool_call_id = none;
  tool_calls = [];
  extra_metadata = [];
  sequence = pos m.sequence;
}

persist_to_db_total_example :
    (db' : Db) × (added : List Message) × (persist_to_db full no_messages ≡ some db')
    × (db'.messages ≡ map (λ m. local_message m) added)
    × IsDrawn added full.recent_messages
    × All (λ m. rows_with "s1" "local" m.sequence [] ≡ 0) added
    × IsUnique "s1" "local" db'.messages
    × All (λ m. rows_with "s1" "local" m.sequence db'.messages ≡ 1) full.recent_messages
unfolding new_context find rows_with add_messages add_message
persist_to_db_total_example = persist_to_db_total full no_messages local_row refl (λ n. omega arith)
