-- ===== src/Security/Envelope/Candidates.antt =====
-- `retention_candidates` of src/agent_runtime/security/envelope.py against `erase_tenant_key`. The order of
-- texts is that of the database's collation, a parameter.
use agent_reliability_runtim.Prelude.{
  ℕ, zero, suc, ◌≤◌, min, max, String, ◌≡◌, refl, ap, ◌∙◌, ◌⊎◌, inl, inr, Bool, true, false, not,
  ◌&&◌, ◌||◌, Option, none, some, List, [], ◌∷◌, leb, str_eq, eq_iff, is_some, take, length, count,
  arith, Bool-cases, Option-cases, if◌then◌else◌,
}
use agent_reliability_runtim.Prelude.Result.{ok}
use agent_reliability_runtim.Store.{Time, Run}
use agent_reliability_runtim.Evaluation.Safety.{is_one_of}
use agent_reliability_runtim.Security.Envelope.{
  TenantKey, Vault, is_of_tenant, find_key, has_unsafe, is_recent, is_confirmed, erase_row,
  erase_found, erase_tenant_key,
}
use agent_reliability_runtim.Security.Envelope.Keys.{find_key-tenant}

-- The conditions of the query.
unfoldable pub is_candidate : Time → List Run → TenantKey → Bool
is_candidate cutoff runs row =
    not (is_some row.destroyed_at)
    && leb row.last_encrypted_at cutoff
    && not (has_unsafe row.tenant_id (some cutoff) runs)

unfoldable pub candidate_tenants : Time → List Run → List TenantKey → List String
unfolding is_candidate
candidate_tenants cutoff runs [] = []
candidate_tenants cutoff runs (row ∷ rows) =
    let rest = candidate_tenants cutoff runs rows in
    if is_candidate cutoff runs row then row.tenant_id ∷ rest else rest

-- The primary key of the table.
abbrev pub TenantsUnique : List TenantKey → Type 0
TenantsUnique keys = (tenant_id : String) → count (is_of_tenant tenant_id) keys ≤ 1

module _ (before : String → String → Bool) where
  unfoldable pub insert_name : String → List String → List String
  insert_name t [] = t ∷ []
  insert_name t (u ∷ us) = if before t u then t ∷ u ∷ us else u ∷ insert_name t us

  unfoldable pub order_names : List String → List String
  unfolding insert_name
  order_names [] = []
  order_names (t ∷ ts) = insert_name t (order_names ts)

  unfoldable pub retention_candidates : Time → ℕ → List Run → List TenantKey → List String
  unfolding candidate_tenants order_names
  retention_candidates cutoff limit runs keys =
      take (max 1 (min limit 100)) (order_names (candidate_tenants cutoff runs keys))

  is_one_of-insert_name :
      (s t : String) (ts : List String)
      → is_one_of s (insert_name t ts) ≡ (str_eq t s || is_one_of s ts)
  unfolding is_one_of insert_name
  is_one_of-insert_name s t [] = refl
  is_one_of-insert_name s t (u ∷ us) = ground (arith, is_one_of-insert_name s t us)

  is_one_of-order_names :
      (s : String) (ts : List String) → is_one_of s (order_names ts) ≡ is_one_of s ts
  unfolding is_one_of order_names
  is_one_of-order_names s [] = refl
  is_one_of-order_names s (t ∷ ts) =
      is_one_of-insert_name s t (order_names ts)
      ∙ ap (λ b. str_eq t s || b) (is_one_of-order_names s ts)

-- A text on a page is in the list, and one that is not on it is not in the list or the page is full.
is_one_of-take :
    (s : String) (n : ℕ) (ts : List String)
    → (is_one_of s (take n ts) ≡ is_one_of s ts)
      ⊎ ((is_one_of s (take n ts) ≡ false) × (length (take n ts) ≡ n))
unfolding is_one_of
is_one_of-take s zero ts = inr (refl, refl)
is_one_of-take s (suc n) [] = inl refl
is_one_of-take s (suc n) (t ∷ ts) = elim (is_one_of-take s n ts) [
  | inl same ↦ inl (ap (λ b. str_eq t s || b) same)
  | inr (off, full) ↦ elim (Bool-cases (str_eq t s)) [
    | inl here ↦ inl (rw here refl)
    | inr there ↦ inr (rw there off, omega (arith, full))
  ]
]

-- Whether a tenant's row, if it has one, meets the conditions.
abbrev meets : Time → List Run → Option TenantKey → Bool
meets cutoff runs none = false
meets cutoff runs (some row) = is_candidate cutoff runs row

no_name :
    (cutoff : Time) (runs : List Run) (keys : List TenantKey) (t : String)
    → count (is_of_tenant t) keys ≡ 0
    → is_one_of t (candidate_tenants cutoff runs keys) ≡ false
unfolding candidate_tenants is_one_of is_of_tenant
no_name cutoff runs [] t h = refl
no_name cutoff runs (k ∷ ks) t h = ground (arith, no_name cutoff runs ks t)

name-meets :
    (cutoff : Time) (runs : List Run) (keys : List TenantKey) (t : String)
    → count (is_of_tenant t) keys ≤ 1
    → is_one_of t (candidate_tenants cutoff runs keys) ≡ meets cutoff runs (find_key t keys)
unfolding candidate_tenants is_one_of find_key is_of_tenant
name-meets cutoff runs [] t once = refl
name-meets cutoff runs (k ∷ ks) t once =
    ground (arith, no_name cutoff runs ks t, name-meets cutoff runs ks t)

-- A dry erasure with the cutoff answers by the conditions.
dry-meets :
    (now cutoff : Time) (t principal_id : String) (runs : List Run) (vault : Vault)
    → erase_tenant_key now t principal_id true none (some cutoff) runs vault
      ≡ ok (meets cutoff runs (find_key t vault.keys), vault)
unfolding erase_tenant_key erase_found is_candidate is_recent
dry-meets now cutoff t principal_id runs vault = elim (Option-cases (find_key t vault.keys)) [
  | inl missing ↦ rw missing refl
  | inr (row, found) ↦
      let mine : row.tenant_id ≡ t = find_key-tenant t vault.keys row found in
      rw (found, mine) (ground arith)
]

wet-meets :
    (now cutoff : Time) (t principal_id : String) (runs : List Run) (vault : Vault)
    → meets cutoff runs (find_key t vault.keys) ≡ true
    → (row : TenantKey) × (find_key t vault.keys ≡ some row)
      × (erase_tenant_key now t principal_id false (some t) (some cutoff) runs vault
          ≡ ok (true, erase_row now t principal_id row vault))
unfolding erase_tenant_key erase_found is_candidate is_recent is_confirmed
wet-meets now cutoff t principal_id runs vault h = elim (Option-cases (find_key t vault.keys)) [
  | inl missing ↦ absurd (cc (rw missing at h))
  | inr (row, found) ↦
      let mine : row.tenant_id ≡ t = find_key-tenant t vault.keys row found in
      let fits : is_candidate cutoff runs row ≡ true = rw found at h in
      let safe : has_unsafe t (some cutoff) runs ≡ false = rw (← mine) (ground (arith, fits)) in
      (row, found, rw found (ground (arith, fits, safe, eq_iff t t)))
]

-- Where the tenants of the table are unique: a confirmed erasure of a candidate, with the same
-- cutoff, says True and erases its row; where a tenant is not a candidate, its dry erasure with
-- the cutoff says False, or the list has the length of its limit, one to a hundred.
pub retention_candidates_cases :
    (before : String → String → Bool) (now cutoff : Time) (limit : ℕ) (t principal_id : String)
    (runs : List Run) (vault : Vault)
    → TenantsUnique vault.keys
    → let candidates = retention_candidates before cutoff limit runs vault.keys in
      ((is_one_of t candidates ≡ true)
        × ((row : TenantKey) × (find_key t vault.keys ≡ some row)
            × (erase_tenant_key now t principal_id false (some t) (some cutoff) runs vault
                ≡ ok (true, erase_row now t principal_id row vault))))
      ⊎ ((is_one_of t candidates ≡ false)
          × ((erase_tenant_key now t principal_id true none (some cutoff) runs vault
                ≡ ok (false, vault))
              ⊎ (length candidates ≡ max 1 (min limit 100))))
unfolding retention_candidates
retention_candidates_cases before now cutoff limit t principal_id runs vault unique =
    let names = candidate_tenants cutoff runs vault.keys in
    let page = max 1 (min limit 100) in
    let all : is_one_of t (order_names before names) ≡ meets cutoff runs (find_key t vault.keys) =
      is_one_of-order_names before t names ∙ name-meets cutoff runs vault.keys t (unique t) in
    let dry = dry-meets now cutoff t principal_id runs vault in
    elim (is_one_of-take t page (order_names before names)) [
      | inr (off, full) ↦ inr (off, inr full)
      | inl same ↦ elim (Bool-cases (meets cutoff runs (find_key t vault.keys))) [
        | inl yes_meets ↦
            inl (same ∙ all ∙ yes_meets, wet-meets now cutoff t principal_id runs vault yes_meets)
        | inr unmet ↦ inr (same ∙ all ∙ unmet, inl (dry ∙ ap (λ b. ok (b, vault)) unmet))
      ]
    ]
