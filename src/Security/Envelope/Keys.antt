-- ===== src/Security/Envelope/Keys.antt =====
-- Keys in the table, and what an erasure does to them (src/agent_runtime/security/envelope.py).
use agent_reliability_runtim.Prelude.{
  String, ◌≡◌, ◌≢◌, sym, ap, ◌⊎◌, ◌||◌, is_some, ◌∙◌, Bool, true, false, Option, some, List, [],
  ◌∷◌, arith, inl, inr, str_eq, eq_iff, Bool-cases, Option-cases,
}
use agent_reliability_runtim.Prelude.Result.{ok}
use agent_reliability_runtim.Store.{Time, Run}
use agent_reliability_runtim.Security.Envelope.{
  TenantKey, Vault, is_of_tenant, find_key, save_key, destroyed, erase_row, erase_found,
  erase_tenant_key, has_unsafe, is_recent, is_confirmed,
}

pub find_key-save_key :
    (row : TenantKey) (keys : List TenantKey)
    → find_key row.tenant_id (save_key row keys) ≡ some row
unfolding find_key save_key is_of_tenant
find_key-save_key row [] = ground (arith, eq_iff row.tenant_id row.tenant_id)
find_key-save_key row (k ∷ ks) =
    ground (arith, find_key-save_key row ks, eq_iff row.tenant_id row.tenant_id)

pub find_key-save_key_ne :
    (row : TenantKey) (tenant_id : String) (keys : List TenantKey)
    → row.tenant_id ≢ tenant_id
    → find_key tenant_id (save_key row keys) ≡ find_key tenant_id keys
unfolding find_key save_key is_of_tenant
find_key-save_key_ne row tenant_id [] apart = ground (arith, eq_iff row.tenant_id tenant_id)
find_key-save_key_ne row tenant_id (k ∷ ks) apart = ground (
  arith,
  find_key-save_key_ne row tenant_id ks apart,
  eq_iff row.tenant_id tenant_id,
  eq_iff k.tenant_id row.tenant_id,
  eq_iff k.tenant_id tenant_id,
)

pub find_key-tenant :
    (tenant_id : String) (keys : List TenantKey) (row : TenantKey)
    → find_key tenant_id keys ≡ some row
    → row.tenant_id ≡ tenant_id
unfolding find_key is_of_tenant
find_key-tenant tenant_id [] row h = cc h
find_key-tenant tenant_id (k ∷ ks) row h = elim (Bool-cases (str_eq k.tenant_id tenant_id)) [
  | inl mine ↦
      let same : k ≡ row = cc (rw mine at h) in rw (← same) ((eq_iff k.tenant_id tenant_id).0 mine)
  | inr other ↦ find_key-tenant tenant_id ks row (rw other at h)
]

-- An erasure that was not refused, dry or without need.
pub record Erased (now : Time) (tenant_id principal_id : String) (dry_run : Bool)
    (confirm_tenant : Option String) (cutoff : Option Time) (runs : List Run) (vault : Vault)
    (row : TenantKey) (answer : Bool) (vault' : Vault) : Type 0 where
  pub live : is_some row.destroyed_at ≡ false
  pub wet : dry_run ≡ false
  pub yes : answer ≡ true
  pub safe : has_unsafe tenant_id cutoff runs ≡ false
  pub stale : is_recent cutoff row ≡ false
  pub confirmed : is_confirmed confirm_tenant tenant_id ≡ true
  pub gone : vault' ≡ erase_row now tenant_id principal_id row vault

pub erase_found_cases :
    (now : Time) (tenant_id principal_id : String) (dry_run : Bool) (confirm_tenant : Option String)
    (cutoff : Option Time) (runs : List Run) (vault : Vault) (row : TenantKey) (answer : Bool)
    (vault' : Vault)
    → erase_found now tenant_id principal_id dry_run confirm_tenant cutoff runs vault (some row)
      ≡ ok (answer, vault')
    → ((vault' ≡ vault) × ((answer ≡ false) ⊎ (dry_run ≡ true)))
      ⊎ Erased now tenant_id principal_id dry_run confirm_tenant cutoff runs vault row answer vault'
unfolding erase_found
erase_found_cases now tenant_id principal_id dry_run confirm_tenant cutoff runs vault row answer
      vault' h =
    elim (Bool-cases
      (is_some row.destroyed_at || is_recent cutoff row || has_unsafe tenant_id cutoff runs)) [
        | inl refused ↦ inl (ground (arith, h), inl (ground (arith, h)))
        | inr left ↦ elim (Bool-cases dry_run) [
          | inl dry ↦ inl (ground (arith, h), inr dry)
          | inr wet ↦ elim (Bool-cases (is_confirmed confirm_tenant tenant_id)) [
            | inr unsure ↦ absurd (ground (arith, h))
            | inl sure ↦ inr (record {
              live = ground (arith, left);
              wet = wet;
              yes = ground (arith, h);
              safe = ground (arith, left);
              stale = ground (arith, left);
              confirmed = sure;
              gone = ground (arith, h);
            })
          ]
        ]
      ]

-- An erasure leaves the keys of the other tenants as they are.
pub erase_tenant_key-others :
    (now : Time) (tenant_id principal_id : String) (dry_run : Bool) (confirm_tenant : Option String)
    (cutoff : Option Time) (runs : List Run) (vault : Vault) (answer : Bool) (vault' : Vault)
    → erase_tenant_key now tenant_id principal_id dry_run confirm_tenant cutoff runs vault
      ≡ ok (answer, vault')
    → (other : String) → tenant_id ≢ other
    → find_key other vault'.keys ≡ find_key other vault.keys
unfolding erase_tenant_key erase_found erase_row destroyed
erase_tenant_key-others now tenant_id principal_id dry_run confirm_tenant cutoff runs vault answer
      vault' h other apart =
    elim (Option-cases (find_key tenant_id vault.keys)) [
      | inl missing ↦
          let same : vault ≡ vault' = ground (arith, rw (missing, erase_found) at h) in
          ap (λ (v : Vault). find_key other v.keys) (sym same)
      | inr (row, found) ↦
          elim (erase_found_cases now tenant_id principal_id dry_run confirm_tenant cutoff runs
            vault row answer vault' (rw found at h)) [
              | inl (same, _) ↦ ap (λ (v : Vault). find_key other v.keys) same
              | inr e ↦
                  ap (λ (v : Vault). find_key other v.keys) e.gone
                  ∙ find_key-save_key_ne (destroyed now row) other vault.keys
                      (λ q. apart (sym (find_key-tenant tenant_id vault.keys row found) ∙ q))
            ]
    ]
