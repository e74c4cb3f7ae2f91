-- ===== src/Api/Interleaving.antt =====
-- Any interleaving of the requests of all tenants.
use text.Mathlib.Text.{◌==◌}
use text.Mathlib.TextEquality.{eq_iff}
use project_kernel_runtime.Base.{◌≡◌, refl, sym, String, List, [], ◌∷◌, keep, Bool-cases, inl, inr}
use project_kernel_runtime.Base.Dict.{ne_of_eq_false}
use project_kernel_runtime.Auth.Library.{TokenPayload}
use project_kernel_runtime.Api.{Tables, Draw, Environment, Reply}
use project_kernel_runtime.Api.Views.{view}
use project_kernel_runtime.Api.Requests.{Request, Body, answer_request, Call, serve}
use project_kernel_runtime.Api.Commuting.{viewed}
use project_kernel_runtime.Api.Handling.{answer_request-view}
use project_kernel_runtime.Api.Isolation.{answer_request-Same}

-- The answers to one tenant.
abbrev pub answers_to : String → List (String × Reply Body) → List (String × Reply Body)
answers_to t = keep (λ a. a.0 == t)

own-view :
    (env : Environment) (d : Draw) (u : TokenPayload) (r : Request) (db : Tables) (t : String)
    → u.tenant_id ≡ t
    → answer_request env d u r (view t db) ≡ viewed t (answer_request env d u r db)
own-view env d u r db t e = rw (sym e) (answer_request-view env d u r db)

-- In any sequence of requests on sessions, their workspaces and tasks, by users of any tenants, the
-- answers that a tenant gets, and the rows that it has at the end, are those of its own requests
-- alone, run on its own rows alone: no request of another tenant, wherever it comes in the
-- sequence, can be told from its absence.
pub serve-view :
    (env : Environment) (t : String) (cs : List Call) (db : Tables)
    → let (answers, db') = serve env cs db in
      serve env (keep (λ c. c.user.tenant_id == t) cs) (view t db)
      ≡ (answers_to t answers, view t db')
unfolding serve
serve-view env t [] db = refl
serve-view env t (c ∷ cs) db =
    let rest = serve-view env t cs (answer_request env c.draw c.user c.request db).1 in
    elim (Bool-cases (c.user.tenant_id == t)) [
      | inl own ↦
          rw
            (
              own,
              own-view env c.draw c.user c.request db t ((eq_iff c.user.tenant_id t).0 own),
              rest,
            )
            refl
      | inr other ↦
          rw
            (
              other,
              sym (
                  answer_request-Same t c.user (ne_of_eq_false c.user.tenant_id t other) env c.draw
                    c.request db),
              rest,
            )
            refl
    ]
