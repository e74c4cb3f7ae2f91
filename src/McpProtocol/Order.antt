-- ===== src/McpProtocol/Order.antt =====
-- Which answer goes to which request.
use project_kernel_runtime.Base.{
  ℕ, zero, suc, ◌+◌, ◌<◌, ◌≡◌, refl, sym, ap, ◌∙◌, String, List, [], ◌∷◌, ◌++◌, append_assoc,
  append-nil, map, length, take, drop, arith,
}
use mathlib.Core.Path.{ap₂}
use project_kernel_runtime.McpProtocol.{
  JsonRpcResponse, Line, Failure, Reply, Protocol, read_line, answer, read_response, send_request,
  call_tool,
}

-- A line that answers nothing: noise, or a notification with its method.
pub data Quiet : Type 0 where
  blank : Quiet
  event : String → Quiet

unfoldable pub notifications : List Quiet → ℕ
notifications [] = 0
notifications (blank ∷ qs) = notifications qs
notifications (event m ∷ qs) = notifications qs + 1

-- Fewer than 50 notifications and any noise, and then an answer.
pub record Segment (V : Type 0) : Type 0 where
  pub before : List Quiet
  pub few : notifications before < 50
  pub answered : JsonRpcResponse V

module _ {V : Type 0} where
  unfoldable pub quiet_then : List Quiet → List (Line V) → List (Line V)
  quiet_then [] lines = lines
  quiet_then (blank ∷ qs) lines = Line.noise ∷ quiet_then qs lines
  quiet_then (event m ∷ qs) lines = Line.notification m ∷ quiet_then qs lines

  unfoldable pub lines_of : List (Segment V) → List (Line V)
  lines_of [] = []
  lines_of (s ∷ ss) = quiet_then s.before (Line.response s.answered ∷ lines_of ss)

  quiet_then-append :
      (qs : List Quiet) (xs ys : List (Line V)) → quiet_then qs (xs ++ ys) ≡ quiet_then qs xs ++ ys
  unfolding quiet_then
  quiet_then-append [] xs ys = refl
  quiet_then-append (blank ∷ qs) xs ys = ap (◌∷◌ Line.noise) (quiet_then-append qs xs ys)
  quiet_then-append (event m ∷ qs) xs ys =
      ap (◌∷◌ (Line.notification m)) (quiet_then-append qs xs ys)

  lines_of-append : (ss ts : List (Segment V)) → lines_of (ss ++ ts) ≡ lines_of ss ++ lines_of ts
  unfolding lines_of
  lines_of-append [] ts = refl
  lines_of-append (s ∷ ss) ts =
      ap (λ l. quiet_then s.before (Line.response s.answered ∷ l)) (lines_of-append ss ts)
      ∙ quiet_then-append s.before _ (lines_of ts)

  read_quiet :
      (n : ℕ) (ended : Failure) (qs : List Quiet) (r : JsonRpcResponse V) (rest : List (Line V))
      → notifications qs < n
      → read_response n ended (quiet_then qs (Line.response r ∷ rest)) ≡ (answer r, rest)
  unfolding read_response read_line quiet_then notifications
  read_quiet zero ended qs r rest h = absurd (omega (arith, h))
  read_quiet (suc n) ended [] r rest h = refl
  read_quiet (suc n) ended (blank ∷ qs) r rest h = read_quiet (suc n) ended qs r rest h
  read_quiet (suc n) ended (event m ∷ qs) r rest h = read_quiet n ended qs r rest (omega (arith, h))

  -- Calls of tools, one after another: the parameters, and the segment that comes during each.
  unfoldable pub calls : List (V × Segment V × Failure) → Protocol V → List (Reply V) × Protocol V
  calls [] p = ([], p)
  calls ((params, s, ended) ∷ more) p =
      let (reply, p') = call_tool params (lines_of (s ∷ [])) ended p in
      let (replies, p'') = calls more p' in (reply ∷ replies, p'')

  abbrev pub segments : List (V × Segment V × Failure) → List (Segment V)
  segments = map (λ c. c.1)

  call_next :
      (params : V) (s : Segment V) (ended : Failure) (p : Protocol V) (first : Segment V)
      (late : List (Segment V))
      → p.unread ++ lines_of (s ∷ []) ≡ lines_of (first ∷ late)
      → let (reply, p') = call_tool params (lines_of (s ∷ [])) ended p in
        (reply ≡ answer first.answered) × (p'.unread ≡ lines_of late)
  unfolding call_tool send_request lines_of
  call_next params s ended p first late e =
      rw (e, read_quiet 50 ended first.before first.answered (lines_of late) first.few) (refl, refl)

  -- Answers are given out in the order in which they come, whatever identifiers they carry: if
  -- `late` answers are unread and one more comes during each call, a call gets the oldest one that
  -- is left, and as many are unread in the end.
  pub answers_in_order :
      (cs : List (V × Segment V × Failure)) (p : Protocol V) (late : List (Segment V))
      → p.unread ≡ lines_of late
      → let all = late ++ segments cs in
        let (replies, p') = calls cs p in
        (replies ≡ map (λ s. answer s.answered) (take (length cs) all))
        × (p'.unread ≡ lines_of (drop (length cs) all))
  unfolding calls lines_of
  answers_in_order [] p late e = (refl, e ∙ ap lines_of (sym (append-nil late)))
  answers_in_order ((params, s, ended) ∷ cs) p [] e =
      let next = call_next params s ended p s [] (ap (λ l. l ++ lines_of (s ∷ [])) e) in
      let p' = (call_tool params (lines_of (s ∷ [])) ended p).1 in
      let (replies, rest) = answers_in_order cs p' [] next.1 in (ap₂ ◌∷◌ next.0 replies, rest)
  answers_in_order ((params, s, ended) ∷ cs) p (first ∷ late) e =
      let next =
        call_next params s ended p first (late ++ s ∷ [])
          (ap (λ l. l ++ lines_of (s ∷ [])) e ∙ sym (lines_of-append (first ∷ late) (s ∷ []))) in
      let p' = (call_tool params (lines_of (s ∷ [])) ended p).1 in
      let (replies, rest) = answers_in_order cs p' (late ++ s ∷ []) next.1 in
      let same = append_assoc late (s ∷ []) (segments cs) in
      (
        ap₂ ◌∷◌ next.0 (replies ∙ ap (λ l. map (λ x. answer x.answered) (take (length cs) l)) same),
        rest ∙ ap (λ l. lines_of (drop (length cs) l)) same,
      )
