-- ===== src/Api/Views.antt =====
-- A tenant's view of the tables, and how searches and changes of rows behave under it.
use text.Mathlib.Text.{◌==◌}
use project_kernel_runtime.Base.{
  ◌≡◌, refl, Bool, true, false, String, List, [], ◌∷◌, ◌++◌, keep, keep-append, All, append-nil,
  append_assoc, sym, arith,
}
use project_kernel_runtime.Api.{Tables, find_row, change_row}

-- The rows of a tenant.
abbrev pub view : String → Tables → Tables
view tenant_id db = record {
  sessions = keep (λ s. s.tenant_id == tenant_id) db.sessions;
  workspaces = keep (λ ws. ws.tenant_id == tenant_id) db.workspaces;
  tasks = keep (λ t. t.tenant_id == tenant_id) db.tasks;
  messages = keep (λ m. m.tenant_id == tenant_id) db.messages;
  task_queue = keep (λ e. e.tenant_id == tenant_id) db.task_queue;
}

-- A row that a search accepts is in the view.
abbrev pub Within : {A : Type 0} → (A → Bool) → (A → Bool) → Type 0
Within {A} p q = (x : A) → p x ≡ true → q x ≡ true

-- A row that a search accepts is not in the view.
abbrev pub Apart : {A : Type 0} → (A → Bool) → (A → Bool) → Type 0
Apart {A} p q = (x : A) → p x ≡ true → q x ≡ false

-- A change leaves a row where it was.
abbrev pub Stays : {A : Type 0} → (A → Bool) → (A → A) → Type 0
Stays {A} q f = (x : A) → q (f x) ≡ q x

pub find_row-keep :
    {A : Type 0} (p q : A → Bool) (xs : List A)
    → Within p q
    → find_row p (keep q xs) ≡ find_row p xs
unfolding find_row
find_row-keep p q [] h = refl
find_row-keep p q (x ∷ xs) h = ground (arith, h x, find_row-keep p q xs h)

pub keep-change_row :
    {A : Type 0} (p q : A → Bool) (f : A → A) (xs : List A)
    → Within p q
    → Stays q f
    → keep q (change_row p f xs) ≡ change_row p f (keep q xs)
unfolding change_row
keep-change_row p q f [] h s = refl
keep-change_row p q f (x ∷ xs) h s = ground (arith, h x, s x, keep-change_row p q f xs h s)

pub keep-change_row-Apart :
    {A : Type 0} (p q : A → Bool) (f : A → A) (xs : List A)
    → Apart p q
    → Stays q f
    → keep q (change_row p f xs) ≡ keep q xs
unfolding change_row
keep-change_row-Apart p q f [] h s = refl
keep-change_row-Apart p q f (x ∷ xs) h s =
    ground (arith, h x, s x, keep-change_row-Apart p q f xs h s)

pub keep-keep :
    {A : Type 0} (p q : A → Bool) (xs : List A) → Within p q → keep p (keep q xs) ≡ keep p xs
keep-keep p q [] h = refl
keep-keep p q (x ∷ xs) h = ground (arith, h x, keep-keep p q xs h)

-- A new row of the tenant's own, and one of another's.
pub keep-append_own :
    {A : Type 0} (q : A → Bool) (xs : List A) (x : A)
    → q x ≡ true
    → keep q (xs ++ x ∷ []) ≡ keep q xs ++ x ∷ []
keep-append_own q xs x h = rw (keep-append q xs (x ∷ []), h) refl

pub keep-append_apart :
    {A : Type 0} (q : A → Bool) (xs ys : List A)
    → All (λ y. q y ≡ false) ys
    → keep q (xs ++ ys) ≡ keep q xs
keep-append_apart q xs [] h = rw (append-nil xs) refl
keep-append_apart q xs (y ∷ ys) h =
    rw
      (
        sym (append_assoc xs (y ∷ []) ys),
        keep-append_apart q (xs ++ y ∷ []) ys h.1,
        keep-append q xs (y ∷ []),
        h.0,
        append-nil (keep q xs),
      )
      refl
