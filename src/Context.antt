-- ===== src/Context.antt =====
-- src/services/memory/context: models.py, message_handler.py, windows.py and builder.py; and
-- checkpoint.py in Checkpoint. The time stamp, the tool calls and the tool results of a message are
-- carried along and never read: they are left out, and so is the context's metadata.
-- The tasks that a handler starts to summarise run later: each is an operation of its own.
pub mod History
pub mod Windows
pub mod Checkpoint
pub mod Persistence
mod Tests
use package.text.Mathlib.Text.{◌==◌}
use Prim.Native.String
use Prim.Native.String.{◌++◌ as str_append}
use project_kernel_runtime.Base.{
  ℕ, zero, suc, ◌+◌, ◌/◌, ltb, leb, Bool, true, false, ◌||◌, Option, none, some, String, List, [],
  ◌∷◌, ◌++◌, map, keep, any, length, slice_last, slice_but_last, if◌then◌else◌,
}

pub record Message : Type 0 where
  pub sequence : ℕ
  pub role : String
  pub content : String
  pub task_id : Option String

pub record ContextWindow : Type 0 where
  pub start_sequence : ℕ
  pub end_sequence : ℕ
  pub messages : List Message
  pub summary : Option String
  pub token_count : ℕ

pub record SessionContext : Type 0 where
  pub session_id : String
  pub user_id : String
  pub windows : List ContextWindow
  pub recent_messages : List Message
  pub last_sequence : ℕ
  pub total_messages : ℕ
  pub is_dirty : Bool
  pub key_topics : List String
  pub file_references : List String

-- What the code takes from `str` and `re`.
pub record TextTools : Type 0 where
  pub lower : String → String
  pub contains : String → String → Bool
  pub find_files : String → List String
  pub key_topics_of : List String → List String

-- The constructor, with the defaults of the fields.
unfoldable pub new_context : String → String → SessionContext
new_context session_id user_id = record {
  session_id = session_id;
  user_id = user_id;
  windows = [];
  recent_messages = [];
  last_sequence = 0;
  total_messages = 0;
  is_dirty = false;
  key_topics = [];
  file_references = [];
}

unfoldable pub text_length : String → ℕ
text_length String.[] = 0
text_length (String.◌∷◌ c s) = text_length s + 1

unfoldable pub total_length : List Message → ℕ
total_length [] = 0
total_length (m ∷ ms) = text_length m.content + total_length ms

abbrev pub last_of : Message → List Message → Message
last_of m [] = m
last_of m (n ∷ ns) = last_of n ns

-- `none` is ValueError.
unfoldable pub create_window : List Message → SessionContext → Option SessionContext
create_window [] c = none
create_window (m ∷ ms) c = some (record c {
  windows =
      c.windows
      ++ record {
        start_sequence = m.sequence;
        end_sequence = (last_of m ms).sequence;
        messages = m ∷ ms;
        summary = none;
        token_count = total_length (m ∷ ms) / 4;
      }
        ∷ [];
})

-- `if old_messages: create_window(context, old_messages)`
abbrev pub window_or : Option SessionContext → SessionContext → SessionContext
window_or none c = c
window_or (some c') c = c'

-- The oldest of the recent messages move to a window.
unfoldable pub overflow : ℕ → SessionContext → SessionContext
unfolding create_window
overflow max_recent c =
    let kept : SessionContext = record c {
      recent_messages = slice_last max_recent c.recent_messages;
    } in
    window_or (create_window (slice_but_last max_recent c.recent_messages) kept) kept

-- `set.update`
unfoldable pub update_set : List String → List String → List String
update_set [] s = s
update_set (x ∷ xs) s = update_set xs (if any (λ y. x == y) s then s else x ∷ s)

module _ (text : TextTools) where
  unfoldable pub file_refs : String → List String → List String
  unfolding update_set
  file_refs content refs =
      if text.contains "file" (text.lower content) || text.contains "." content
      then update_set (text.find_files content) refs
      else refs

  unfoldable pub add_message : ℕ → String → String → Option String → SessionContext → SessionContext
  unfolding overflow
  add_message max_recent role content task_id c =
      let n = c.last_sequence + 1 in
      let m : Message = record {
        sequence = n;
        role = role;
        content = content;
        task_id = task_id;
      } in
      let c' : SessionContext = record c {
        last_sequence = n;
        recent_messages = c.recent_messages ++ m ∷ [];
      } in
      let moved =
        if ltb max_recent (length c'.recent_messages) then overflow max_recent c' else c' in
      record moved {
        total_messages = moved.total_messages + 1;
        is_dirty = true;
        file_references = file_refs content moved.file_references;
      }

  -- `summarize_session`: the topics of the last two windows and the recent messages.
  unfoldable pub contents : List ContextWindow → List Message → List String
  contents [] recent = map (λ m. m.content) recent
  contents (w ∷ ws) recent = map (λ m. m.content) w.messages ++ contents ws recent

  unfoldable pub summarize_session : SessionContext → SessionContext
  unfolding contents
  summarize_session c = record c {
    key_topics = text.key_topics_of (contents (slice_last 2 c.windows) c.recent_messages);
    is_dirty = true;
  }

  unfoldable pub matching : (Message → Bool) → List ContextWindow → List Message → List Message
  matching p [] recent = keep p recent
  matching p (w ∷ ws) recent = keep p w.messages ++ matching p ws recent

  unfoldable pub search : String → SessionContext → List Message
  unfolding matching
  search query c =
      matching (λ m. text.contains (text.lower query) (text.lower m.content)) c.windows
        c.recent_messages

  unfoldable pub get_file_context : String → SessionContext → List Message
  unfolding matching
  get_file_context filepath c =
      matching (λ m. text.contains filepath m.content) c.windows c.recent_messages

unfoldable pub windows_then : List ContextWindow → List Message → List Message
windows_then [] recent = recent
windows_then (w ∷ ws) recent = w.messages ++ windows_then ws recent

-- `list.sort` by the sequence: stable.
unfoldable pub insert_message : Message → List Message → List Message
insert_message m [] = m ∷ []
insert_message m (n ∷ ns) =
    let rest = insert_message m ns in if leb m.sequence n.sequence then m ∷ n ∷ ns else n ∷ rest

unfoldable pub sort_messages : List Message → List Message
unfolding insert_message
sort_messages [] = []
sort_messages (m ∷ ms) = insert_message m (sort_messages ms)

unfoldable pub build_for_ui : ℕ → SessionContext → List Message
unfolding windows_then sort_messages
build_for_ui limit c = slice_last limit (sort_messages (windows_then c.windows c.recent_messages))

unfoldable pub summaries : List ContextWindow → List (String × String)
summaries [] = []
summaries (w ∷ ws) =
    let rest = summaries ws in
    elim w.summary [
      | none ↦ rest
      | some s ↦
          if s == ""
          then rest
          else ("system", str_append "[Earlier conversation summary]: " s) ∷ rest
    ]

-- After the system prompt, whose text is given and is not empty; the budget of tokens is not read.
unfoldable pub build_for_llm : ℕ → String → SessionContext → List (String × String)
unfolding summaries
build_for_llm max_windows system_prompt c =
    ("system", system_prompt) ∷ summaries (slice_last max_windows c.windows)
    ++ map (λ m. (m.role, m.content)) c.recent_messages
