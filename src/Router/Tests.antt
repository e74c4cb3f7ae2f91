-- ===== src/Router/Tests.antt =====
-- Two calls of one server, and one of another.
use project_kernel_runtime.Base.{◌≡◌, refl, false, some, List, [], ◌∷◌}
use project_kernel_runtime.Base.Dict.{lookup, erase, insert}
use project_kernel_runtime.Paths.{drop_chars}
use project_kernel_runtime.Values.{text}
use project_kernel_runtime.Router.{
  Calls, Event, start, finish, give_up, run, route, in_sandbox, exclusive, missing_command,
  resource_of, up_to_underscore, get_lock,
}
use project_kernel_runtime.Router.Exclusion.{IsExclusive, run-IsExclusive}

abbrev idle : Calls
idle = record { locks = []; running = [] }

idle-IsExclusive : IsExclusive idle
unfolding IsExclusive get_lock lookup
idle-IsExclusive r = (refl, λ e. refl)

abbrev events : List Event
events =
    start 1 "mcp_git_log"
    ∷ start 2 "mcp_git_diff"
    ∷ start 3 "mcp_web_get"
    ∷ start 4 "read_file"
    ∷ finish 1
    ∷ give_up 7 "git"
    ∷ finish 2
    ∷ []

run-IsExclusive_example : IsExclusive (run events idle)
run-IsExclusive_example = run-IsExclusive events idle idle-IsExclusive

-- Servers whose names have one beginning share a resource.
resource_of_1 : resource_of "mcp_my_server_log" ≡ some "my"
unfolding resource_of up_to_underscore drop_chars
resource_of_1 = refl

route_bash : route false "bash_execute" (("command", text "ls") ∷ []) ≡ in_sandbox "ls" "."
unfolding route lookup erase
route_bash = refl

route_bash_empty : route false "bash_execute" (("command", text "") ∷ []) ≡ missing_command
unfolding route lookup erase
route_bash_empty = refl

route_mcp :
    route false "mcp_git_log" (("folder_slug", text "src") ∷ [])
    ≡ exclusive "git" (("working_dir", text "src") ∷ [])
unfolding route resource_of up_to_underscore drop_chars lookup erase insert
route_mcp = refl
