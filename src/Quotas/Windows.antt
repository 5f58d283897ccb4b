-- ===== src/Quotas/Windows.antt =====
-- The table of provider quotas as a map from scopes to rows.
use agent_reliability_runtim.Prelude.{
  ◌≡◌, ◌≢◌, refl, sym, true, false, some, List, [], ◌∷◌, arith, inl, inr, eq_iff, if◌then◌else◌,
  Bool-cases,
}
use agent_reliability_runtim.Store.{Scope, principal, tenant, ProviderQuota}
use agent_reliability_runtim.Quotas.{same_scope, find_quota, put_quota}

pub same_scope-eq : (s t : Scope) → same_scope s t ≡ true → s ≡ t
unfolding same_scope
same_scope-eq (principal a) (principal b) h = ground (arith, eq_iff a b)
same_scope-eq (tenant a) (tenant b) h = ground (arith, eq_iff a b)
same_scope-eq (principal a) (tenant b) h = cc
same_scope-eq (tenant a) (principal b) h = cc

pub same_scope_refl : (s : Scope) → same_scope s s ≡ true
unfolding same_scope
same_scope_refl (principal a) = ground (arith, eq_iff a a)
same_scope_refl (tenant a) = ground (arith, eq_iff a a)

pub find_quota-scope :
    (s : Scope) (l : List ProviderQuota) (q : ProviderQuota) → find_quota s l ≡ some q → q.scope ≡ s
unfolding find_quota
find_quota-scope s [] q h = cc
find_quota-scope s (r ∷ l) q h = ground (arith, find_quota-scope s l q, same_scope-eq r.scope s)

pub find_quota-put_quota :
    (s : Scope) (r : ProviderQuota) (l : List ProviderQuota)
    → find_quota s (put_quota r l) ≡ (if same_scope r.scope s then some r else find_quota s l)
unfolding find_quota put_quota
find_quota-put_quota s r [] = refl
find_quota-put_quota s r (q ∷ l) = elim (Bool-cases (same_scope q.scope r.scope)) [
  | inl e ↦ rw e (rw (same_scope-eq q.scope r.scope e) (ground arith))
  | inr e ↦ rw e (
      ground (
        arith,
        find_quota-put_quota s r l,
        same_scope-eq r.scope s,
        same_scope-eq q.scope s,
        same_scope_refl r.scope,
      ))
]

pub same_scope-ne : (s t : Scope) → s ≢ t → same_scope s t ≡ false
same_scope-ne s t h = elim (Bool-cases (same_scope s t)) [
  | inl e ↦ absurd (h (same_scope-eq s t e))
  | inr e ↦ e
]

pub find_quota-put_quota_self :
    (r : ProviderQuota) (l : List ProviderQuota) → find_quota r.scope (put_quota r l) ≡ some r
find_quota-put_quota_self r l = rw (find_quota-put_quota, same_scope_refl r.scope)

pub find_quota-put_quota_ne :
    (s : Scope) (r : ProviderQuota) (l : List ProviderQuota)
    → s ≢ r.scope
    → find_quota s (put_quota r l) ≡ find_quota s l
find_quota-put_quota_ne s r l h =
    rw (find_quota-put_quota, same_scope-ne r.scope s (λ e. h (sym e)))
