-- ===== src/Billing.antt =====
-- `check_quota` of src/services/billing/usage_tracker.py. Money is in whole cents: `cost_cents` is
-- divided by 100 there and compared with `quota_usd`, which is `quota_cents` here.
use package.text.Mathlib.Text.{◌==◌}
use project_kernel_runtime.Base.{
  ℕ, zero, suc, Bool, false, Option, none, some, String, leb, if◌then◌else◌,
}
use project_kernel_runtime.Store.{TenantModel, Db, find}

-- `float(tenant.quota_usd) if tenant.quota_usd else 50.0`
abbrev pub quota_of : Option ℕ → ℕ
quota_of none = 5000
quota_of (some zero) = 5000
quota_of (some (suc n)) = suc n

abbrev pub over_quota : Option TenantModel → Bool
over_quota none = false
over_quota (some tenant) = leb (quota_of tenant.quota_cents) tenant.cost_cents

-- Whether QuotaExceededError is raised.
unfoldable pub exceeds_quota : String → Db → Bool
exceeds_quota tenant_id db =
    if tenant_id == "local" then false else over_quota (find (λ t. t.id == tenant_id) db.tenants)
