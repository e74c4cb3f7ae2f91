-- ===== src/Router/Exclusion.antt =====
-- The locks of src/services/tool_execution/multiplexer.py under the calls of router.py.
use text.Mathlib.Text.{◌==◌}
use text.Mathlib.TextEquality.{eq_iff}
use project_kernel_runtime.Base.{
  ℕ, ◌+◌, ◌≡◌, refl, sym, ap, ◌∙◌, Bool, true, false, not, Option, none, some, String, List, [],
  ◌∷◌, keep, if◌then◌else◌, arith, Bool-cases, inl, inr,
}
use project_kernel_runtime.Base.{◌==◌ as nat_eq}
use mathlib.Core.Path.{subst}
use text.Mathlib.TextPositions.{eq_refl}
use project_kernel_runtime.Base.Dict.{lookup, lookup-insert}
use project_kernel_runtime.Router.{
  Lock, Calls, Event, start, finish, give_up, lock_or, get_lock, put_lock, acquired, acquire,
  handed_over, unlocked, release, take_call, released, started, step, run, resource_of,
}

abbrev pub is_of : String → Option String → ℕ
is_of r none = 0
is_of r (some q) = if q == r then 1 else 0

-- How many of the calls that run hold a resource.
abbrev pub holders : String → List (ℕ × Option String) → ℕ
holders r [] = 0
holders r ((t, q) ∷ running) = is_of r q + holders r running

abbrev pub as_number : Bool → ℕ
as_number true = 1
as_number false = 0

-- A lock is set just while one call holds it, and only then others wait.
abbrev pub Fits : ℕ → Lock → Type 0
Fits n l = (n ≡ as_number l.locked) × (l.locked ≡ false → l.waiters ≡ [])

unfoldable pub IsExclusive : Calls → Type 0
unfolding get_lock
IsExclusive s = (r : String) → Fits (holders r s.running) (get_lock r s)

-- A change of one lock and of the calls that hold it.
put_lock-IsExclusive :
    (r : String) (l : Lock) (running : List (ℕ × Option String)) (s : Calls)
    → ((q : String) → (r == q) ≡ false → holders q running ≡ holders q s.running)
    → Fits (holders r running) l
    → ((q : String) → (r == q) ≡ false → Fits (holders q s.running) (get_lock q s))
    → IsExclusive (put_lock r l (record s { running = running }))
unfolding IsExclusive get_lock
put_lock-IsExclusive r l running s others fits h q = elim (Bool-cases (r == q)) [
  | inl same ↦
      subst (λ k. Fits (holders q running) (lock_or k))
        (sym (lookup-insert r q l s.locks ∙ ap (λ b. if b then some l else lookup q s.locks) same))
        (subst (λ p. Fits (holders p running) l) ((eq_iff r q).0 same) fits)
  | inr other ↦
      subst (λ k. Fits (holders q running) (lock_or k))
        (sym (lookup-insert r q l s.locks ∙ ap (λ b. if b then some l else lookup q s.locks) other))
        (subst (λ n. Fits n (get_lock q s)) (sym (others q other)) (h q other))
]

holders-other :
    (r q : String) (t : ℕ) (running : List (ℕ × Option String))
    → (r == q) ≡ false
    → holders q ((t, some r) ∷ running) ≡ holders q running
holders-other r q t running e = rw e (omega arith)

holders_self :
    (r : String) (t : ℕ) (running : List (ℕ × Option String))
    → holders r ((t, some r) ∷ running) ≡ 1 + holders r running
holders_self r t running = rw (eq_refl r) refl

acquired-IsExclusive :
    (b : Bool) (t : ℕ) (r : String) (s : Calls)
    → (get_lock r s).locked ≡ b
    → IsExclusive s
    → IsExclusive (acquired b t r (get_lock r s) s)
unfolding IsExclusive
acquired-IsExclusive true t r s e h =
    put_lock-IsExclusive r _ s.running s (λ q o. refl) ((h r).0, λ f. ground arith) (λ q o. h q)
acquired-IsExclusive false t r s e h =
    put_lock-IsExclusive r _ ((t, some r) ∷ s.running) s (λ q o. holders-other r q t s.running o)
      (holders_self r t s.running ∙ omega (arith, (h r).0, ap as_number e), λ f. ground arith)
      (λ q o. h q)

-- A resource whose holder has just ended: its lock is still set, and no call that runs holds it.
IsLeft : String → Calls → Type 0
IsLeft r s =
    (1 + holders r s.running ≡ as_number (get_lock r s).locked)
    × ((q : String) → (r == q) ≡ false → Fits (holders q s.running) (get_lock q s))

handed_over-IsExclusive :
    (ts : List ℕ) (r : String) (s : Calls)
    → (get_lock r s).waiters ≡ ts
    → (get_lock r s).locked ≡ true
    → IsLeft r s
    → IsExclusive (handed_over ts r (get_lock r s) s)
unfolding IsLeft
handed_over-IsExclusive [] r s e b (one, h) =
    put_lock-IsExclusive r _ s.running s (λ q o. refl) (omega (arith, one, ap as_number b), λ f. e)
      h
handed_over-IsExclusive (t ∷ ts) r s e b (one, h) =
    put_lock-IsExclusive r _ ((t, some r) ∷ s.running) s (λ q o. holders-other r q t s.running o)
      (holders_self r t s.running ∙ one, λ f. ground arith) h

unlocked-IsExclusive :
    (b : Bool) (r : String) (s : Calls)
    → (get_lock r s).locked ≡ b
    → IsLeft r s
    → IsExclusive (unlocked b r (get_lock r s) s)
unfolding IsLeft
unlocked-IsExclusive true r s e h = handed_over-IsExclusive (get_lock r s).waiters r s refl e h
unlocked-IsExclusive false r s e h = ground (arith, h.0, ap as_number e)

-- What is left of the calls that run when one is taken out.
IsTaken :
    String → List (ℕ × Option String) → Option (Option String × List (ℕ × Option String)) → Type 0
IsTaken r running none = Unit
IsTaken r running (some (q, rest)) = holders r running ≡ is_of r q + holders r rest

kept-IsTaken :
    (r : String) (u : ℕ) (p : Option String) (running : List (ℕ × Option String))
    (o : Option (Option String × List (ℕ × Option String)))
    → IsTaken r running o
    → IsTaken r
        ((u, p) ∷ running)
        (elim o [ none ↦ none | some (q, rest) ↦ some (q, (u, p) ∷ rest) ])
unfolding IsTaken
kept-IsTaken r u p running none h = tt
kept-IsTaken r u p running (some (q, rest)) h = omega (arith, h)

take_call-IsTaken :
    (t : ℕ) (running : List (ℕ × Option String)) (r : String)
    → IsTaken r running (take_call t running)
unfolding take_call IsTaken
take_call-IsTaken t [] r = tt
take_call-IsTaken t ((u, p) ∷ running) r = elim (Bool-cases (nat_eq u t)) [
  | inl e ↦ rw e refl
  | inr e ↦ rw e (kept-IsTaken r u p running (take_call t running) (take_call-IsTaken t running r))
]

taken_self : (r : String) (n m : ℕ) → n ≡ is_of r (some r) + m → 1 + m ≡ n
taken_self r n m h = sym (h ∙ ap (λ (b : Bool). (if b then 1 else 0) + m) (eq_refl r))

taken_other : (r q : String) (n m : ℕ) → (q == r) ≡ false → n ≡ is_of r (some q) + m → n ≡ m
taken_other r q n m o h = h ∙ ap (λ (b : Bool). (if b then 1 else 0) + m) o ∙ omega arith

started-IsExclusive :
    (o : Option String) (t : ℕ) (s : Calls) → IsExclusive s → IsExclusive (started o t s)
unfolding IsExclusive get_lock acquire
started-IsExclusive none t s h = λ r. (omega (arith, (h r).0), (h r).1)
started-IsExclusive (some r) t s h = acquired-IsExclusive (get_lock r s).locked t r s refl h

released-IsExclusive :
    (o : Option (Option String × List (ℕ × Option String))) (s : Calls)
    → ((r : String) → IsTaken r s.running o)
    → IsExclusive s
    → IsExclusive (released o s)
unfolding IsExclusive release IsLeft get_lock IsTaken
released-IsExclusive none s e h = h
released-IsExclusive (some (none, rest)) s e h = λ r. (omega (arith, e r, (h r).0), (h r).1)
released-IsExclusive (some (some q, rest)) s e h =
    unlocked-IsExclusive (get_lock q s).locked q (record s { running = rest }) refl
      (
        taken_self q (holders q s.running) (holders q rest) (e q) ∙ (h q).0,
        λ p o. (
          omega (arith, taken_other p q (holders p s.running) (holders p rest) o (e p), (h p).0),
          (h p).1,
        ),
      )

step-IsExclusive : (e : Event) (s : Calls) → IsExclusive s → IsExclusive (step e s)
unfolding step acquire IsExclusive
step-IsExclusive (start t name) s h = started-IsExclusive (resource_of name) t s h
step-IsExclusive (finish t) s h =
    released-IsExclusive (take_call t s.running) s (λ r. take_call-IsTaken t s.running r) h
step-IsExclusive (give_up t r) s h =
    put_lock-IsExclusive r _ s.running s (λ q o. refl)
      ((h r).0, λ f. ap (keep (λ u. not (nat_eq u t))) ((h r).1 f)) (λ q o. h q)

-- Whatever calls start, end and give up, and in whatever order: a resource is held by the call that
-- runs with it, by one at most, its lock is set just while one does, and no call waits for a lock
-- that is not set.
pub run-IsExclusive : (es : List Event) (s : Calls) → IsExclusive s → IsExclusive (run es s)
unfolding run
run-IsExclusive [] s h = h
run-IsExclusive (e ∷ es) s h = run-IsExclusive es (step e s) (step-IsExclusive e s h)
