-- ===== src/Router.antt =====
-- Which way a tool's call takes, and the locks on the servers that tools share:
-- src/services/tool_execution/router.py and multiplexer.py. A lock of asyncio lets its waiters in in
-- their order: a release hands it to the first of them, whose call then runs.
pub mod Exclusion
mod Tests
use package.text.Mathlib.Text.{◌==◌, starts_with}
use Prim.Native.Char.{code}
use project_kernel_runtime.Base.{
  ℕ, ◌+◌, Bool, true, false, not, ◌&&◌, ◌||◌, Option, none, some, String, List, [], ◌∷◌, ◌++◌, keep,
  if◌then◌else◌,
}
use project_kernel_runtime.Base.{◌==◌ as nat_eq}
use project_kernel_runtime.Base.Dict.{Dict, lookup, insert, erase}
use project_kernel_runtime.Paths.{drop_chars}
use project_kernel_runtime.Values.{Value, Kwargs, text, str, is_truthy, truthy_text}

-- Where `execute_tool` sends a call: a command with its directory to the sandbox, or the arguments
-- to the tool itself, under the lock of a resource or without one.
pub data Route : Type 0 where
  missing_command : Route
  in_sandbox : String → String → Route
  direct : Kwargs → Route
  exclusive : String → Kwargs → Route

-- The text up to the next underscore.
unfoldable pub up_to_underscore : String → String
up_to_underscore String.[] = String.[]
up_to_underscore (String.◌∷◌ c s) =
    let rest = up_to_underscore s in if nat_eq (code c) 95 then String.[] else String.◌∷◌ c rest

-- `name.split("_")[1]` of a name that starts with `mcp_`; no resource where it is empty.
unfoldable pub resource_of : String → Option String
unfolding up_to_underscore
resource_of name =
    let part = up_to_underscore (drop_chars 4 name) in
    if starts_with name "mcp_" then (if part == "" then none else some part) else none

-- `kwargs.pop("folder_slug", "") or ""`
abbrev pub folder_of : Kwargs → String
folder_of kwargs = elim (truthy_text (lookup "folder_slug" kwargs)) [ none ↦ "" | some s ↦ s ]

abbrev pub with_working_dir : String → Option Value → Kwargs → Kwargs
with_working_dir folder (some dir) kwargs = kwargs
with_working_dir folder none kwargs =
    if folder == "" then kwargs else insert "working_dir" (text folder) kwargs

abbrev pub bash_route : String → Option String → Route
bash_route folder none = missing_command
bash_route folder (some command) = in_sandbox command (if folder == "" then "." else folder)

abbrev pub tool_route : Option String → Kwargs → Route
tool_route none kwargs = direct kwargs
tool_route (some resource) kwargs = exclusive resource kwargs

unfoldable pub route : Bool → String → Kwargs → Route
unfolding resource_of
route requires_sandbox name kwargs =
    let folder = folder_of kwargs in
    let rest = erase "folder_slug" kwargs in
    if requires_sandbox || name == "bash_execute"
    then (if name == "bash_execute"
        then bash_route folder (truthy_text (lookup "command" rest))
        else direct rest)
    else tool_route (resource_of name) (with_working_dir folder (lookup "working_dir" rest) rest)

pub record Lock : Type 0 where
  pub locked : Bool
  pub waiters : List ℕ

-- The locks of the multiplexer, and the calls that run, by number, each with the resource that it
-- holds.
pub record Calls : Type 0 where
  pub locks : Dict Lock
  pub running : List (ℕ × Option String)

abbrev pub lock_or : Option Lock → Lock
lock_or none = record { locked = false; waiters = [] }
lock_or (some l) = l

-- `_get_lock`
unfoldable pub get_lock : String → Calls → Lock
get_lock resource s = lock_or (lookup resource s.locks)

abbrev pub put_lock : String → Lock → Calls → Calls
put_lock resource l s = record s { locks = insert resource l s.locks }

abbrev pub run_call : ℕ → Option String → Calls → Calls
run_call t resource s = record s { running = (t, resource) ∷ s.running }

-- A lock that is set makes the call wait at the end.
abbrev pub acquired : Bool → ℕ → String → Lock → Calls → Calls
acquired true t resource l s = put_lock resource (record l { waiters = l.waiters ++ t ∷ [] }) s
acquired false t resource l s =
    run_call t (some resource) (put_lock resource (record l { locked = true }) s)

unfoldable pub acquire : ℕ → String → Calls → Calls
unfolding get_lock
acquire t resource s = let l = get_lock resource s in acquired l.locked t resource l s

-- A release, and the first waiter that gets the lock.
abbrev pub handed_over : List ℕ → String → Lock → Calls → Calls
handed_over [] resource l s = put_lock resource (record l { locked = false }) s
handed_over (t ∷ ts) resource l s =
    run_call t (some resource) (put_lock resource (record l { waiters = ts }) s)

-- `if lock.locked()`
abbrev pub unlocked : Bool → String → Lock → Calls → Calls
unlocked true resource l s = handed_over l.waiters resource l s
unlocked false resource l s = s

unfoldable pub release : String → Calls → Calls
unfolding get_lock
release resource s = let l = get_lock resource s in unlocked l.locked resource l s

-- The call that ends is taken from those that run.
unfoldable pub take_call :
    ℕ → List (ℕ × Option String) → Option (Option String × List (ℕ × Option String))
take_call t [] = none
take_call t ((u, r) ∷ running) =
    if nat_eq u t
    then some (r, running)
    else elim (take_call t running) [ none ↦ none | some (q, rest) ↦ some (q, (u, r) ∷ rest) ]

abbrev pub released : Option (Option String × List (ℕ × Option String)) → Calls → Calls
released none s = s
released (some (none, running)) s = record s { running = running }
released (some (some resource, running)) s = release resource (record s { running = running })

-- What happens: a call starts, a call that runs ends, with a result or an error, or a call that waits
-- for a resource is cancelled.
pub data Event : Type 0 where
  start : ℕ → String → Event
  finish : ℕ → Event
  give_up : ℕ → String → Event

abbrev pub started : Option String → ℕ → Calls → Calls
started none t s = run_call t none s
started (some resource) t s = acquire t resource s

unfoldable pub step : Event → Calls → Calls
unfolding acquire release take_call resource_of
step (start t name) s = started (resource_of name) t s
step (finish t) s = released (take_call t s.running) s
step (give_up t resource) s =
    let l = get_lock resource s in
    put_lock resource (record l { waiters = keep (λ u. not (nat_eq u t)) l.waiters }) s

unfoldable pub run : List Event → Calls → Calls
unfolding step
run [] s = s
run (e ∷ es) s = run es (step e s)
