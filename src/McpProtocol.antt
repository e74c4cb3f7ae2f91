-- ===== src/McpProtocol.antt =====
-- The client of an MCP server on a pipe: src/services/mcp/stdio_protocol.py, its messages
-- (stdio_messages.py) and its reader (stdio_writer.py). What the process says is an argument: the
-- lines that come while a request waits, and how the waiting ends if none of them answers it. The
-- protocol's lock makes a request one step.
-- A line that is a request's answer carries a result, an error or neither; the values are of a type
-- `V`, and an error is the object that the server sent.
pub mod Order
mod Tests
use project_kernel_runtime.Base.{
  ℕ, zero, suc, ◌+◌, Bool, true, false, Option, none, some, String, List, [], ◌∷◌, ◌++◌,
}

pub record JsonRpcRequest (V : Type 0) : Type 0 where
  pub id : Option ℕ
  pub method : String
  pub params : Option V

pub record JsonRpcResponse (V : Type 0) : Type 0 where
  pub id : Option ℕ
  pub result : Option V
  pub error : Option V

-- A line of the process: noise is blank, no JSON object, or malformed.
pub data Line (V : Type 0) : Type 0 where
  noise : Line V
  notification : String → Line V
  response : JsonRpcResponse V → Line V

-- How the reader gives up: after 120 seconds without a line, or when the pipe is closed.
pub data Failure : Type 0 where
  timed_out stdout_closed : Failure

pub data Reply (V : Type 0) : Type 0 where
  returned : Option V → Reply V
  request_error : V → Reply V
  no_matching_response : Reply V
  failed : Failure → Reply V

-- `written` is what went to the process, `unread` what it has said and nobody has read.
pub record Protocol (V : Type 0) : Type 0 where
  pub request_id : ℕ
  pub initialized : Bool
  pub written : List (JsonRpcRequest V)
  pub unread : List (Line V)

module _ {V : Type 0} where
  unfoldable pub connect : Protocol V
  connect = record { request_id = 0; initialized = false; written = []; unread = [] }

  -- `read_line`: the next line that is no noise, and the rest.
  unfoldable pub read_line : List (Line V) → Option (Line V × List (Line V))
  read_line [] = none
  read_line (Line.noise ∷ lines) = read_line lines
  read_line (Line.notification method ∷ lines) = some (Line.notification method, lines)
  read_line (Line.response r ∷ lines) = some (Line.response r, lines)

  -- `if response.is_error: raise ...`, and else the result.
  abbrev pub answer : JsonRpcResponse V → Reply V
  answer r = elim r.error [ none ↦ returned r.result | some e ↦ request_error e ]

  -- The round of the loop on a line; `next` is the loop's rest.
  abbrev pub on_line :
      Failure
      → Option (Line V × List (Line V))
      → (List (Line V) → Reply V × List (Line V))
      → Reply V × List (Line V)
  on_line ended none next = (failed ended, [])
  on_line ended (some (Line.noise, lines)) next = next lines
  on_line ended (some (Line.notification method, lines)) next = next lines
  on_line ended (some (Line.response r, lines)) next = (answer r, lines)

  unfoldable pub read_response : ℕ → Failure → List (Line V) → Reply V × List (Line V)
  unfolding read_line
  read_response zero ended lines = (no_matching_response, lines)
  read_response (suc n) ended lines = on_line ended (read_line lines) (read_response n ended)

  unfoldable pub send_request :
      String → Option V → List (Line V) → Failure → Protocol V → Reply V × Protocol V
  unfolding read_response
  send_request method params arrived ended p =
      let n = p.request_id + 1 in
      let (reply, rest) = read_response 50 ended (p.unread ++ arrived) in
      (
        reply,
        record p {
          request_id = n;
          written = p.written ++ record { id = some n; method = method; params = params } ∷ [];
          unread = rest;
        },
      )

  -- After the answer of `initialize`: the notification is sent, and no answer awaited.
  abbrev pub after_initialize : Reply V → Option V → Protocol V → Protocol V
  after_initialize (returned result) none_params p = record p {
    initialized = true;
    written =
        p.written
        ++ record { id = none; method = "notifications/initialized"; params = none_params } ∷ [];
  }
  after_initialize (request_error e) none_params p = p
  after_initialize no_matching_response none_params p = p
  after_initialize (failed f) none_params p = p

  -- `no_params` is the empty object.
  unfoldable pub initialize : V → V → List (Line V) → Failure → Protocol V → Reply V × Protocol V
  unfolding send_request
  initialize params no_params arrived ended p =
      let (reply, p') = send_request "initialize" (some params) arrived ended p in
      (reply, after_initialize reply (some no_params) p')

  unfoldable pub call_tool : V → List (Line V) → Failure → Protocol V → Reply V × Protocol V
  unfolding send_request
  call_tool params arrived ended p = send_request "tools/call" (some params) arrived ended p
