-- ===== src/Security/Envelope/Live.antt =====
-- A live key, and that encryptions keep it (src/agent_runtime/security/envelope.py).
use agent_reliability_runtim.Prelude.{
  String, ◌≡◌, ◌≢◌, refl, sym, ap, ◌∙◌, subst, Bool, true, false, none, some, List, arith, inl, inr,
  str_eq, eq_iff, Bool-cases, Option-cases,
}
use agent_reliability_runtim.Prelude.Result.{ok, >>=-eq-ok}
use agent_reliability_runtim.Store.{Time}
use agent_reliability_runtim.Security.Vault.{Bytes, Wrapper, Codec}
use agent_reliability_runtim.Security.Envelope.{
  TenantKey, find_key, save_key, Draw, new_key, key_of_row, row_for, tenant_key,
}
use agent_reliability_runtim.Security.Envelope.Keys.{
  find_key-save_key, find_key-save_key_ne, find_key-tenant,
}

module _ (wrapper : Wrapper) (codec : Codec) where
  -- The tenant has a live key, and this is it.
  pub record Opens (tenant_id : String) (dek : Bytes) (keys : List TenantKey) : Type 0 where
    pub row : TenantKey
    pub found : find_key tenant_id keys ≡ some row
    pub key : key_of_row wrapper codec tenant_id row.destroyed_at row.wrapped_dek ≡ ok dek

  Opens-save_key :
      (tenant_id : String) (dek : Bytes) (row : TenantKey) (now : Time) (keys : List TenantKey)
      → row.tenant_id ≡ tenant_id
      → key_of_row wrapper codec tenant_id row.destroyed_at row.wrapped_dek ≡ ok dek
      → Opens tenant_id dek (save_key (record row { last_encrypted_at = now }) keys)
  Opens-save_key tenant_id dek row now keys mine key = record {
    row = record row { last_encrypted_at = now };
    found =
        subst
          (λ t.
            find_key t (save_key (record row { last_encrypted_at = now }) keys)
            ≡ some (record row { last_encrypted_at = now }))
          mine (find_key-save_key (record row { last_encrypted_at = now }) keys);
    key = key;
  }

  row_for-tenant :
      (draw : Draw) (tenant_id : String) (create : Bool) (keys : List TenantKey) (row : TenantKey)
      → row_for wrapper codec draw tenant_id create (find_key tenant_id keys) ≡ ok row
      → row.tenant_id ≡ tenant_id
  unfolding row_for new_key
  row_for-tenant draw tenant_id create keys row h = elim (Option-cases (find_key tenant_id keys)) [
    | inr (k, found) ↦
        let same : k ≡ row = cc (rw (found, row_for) at h) in
        rw (← same) (find_key-tenant tenant_id keys k found)
    | inl missing ↦ made create (rw missing at h)
  ]
    where
      made :
          (c : Bool)
          → row_for wrapper codec draw tenant_id c none ≡ ok row
          → row.tenant_id ≡ tenant_id
      made true e = let same : new_key wrapper codec draw tenant_id ≡ row = cc e in rw (← same) refl
      made false e = absurd (cc e)

  -- What `_key` has done when it creates what is missing.
  pub record Keyed (tenant_id : String) (dek : Bytes) (keys keys' : List TenantKey) : Type 0 where
    pub row : TenantKey
    pub now : Time
    pub mine : row.tenant_id ≡ tenant_id
    pub first : (k : TenantKey) → find_key tenant_id keys ≡ some k → k ≡ row
    pub key : key_of_row wrapper codec tenant_id row.destroyed_at row.wrapped_dek ≡ ok dek
    pub saved : keys' ≡ save_key (record row { last_encrypted_at = now }) keys

  pub tenant_key-Keyed :
      (draw : Draw) (tenant_id : String) (keys keys' : List TenantKey) (dek : Bytes)
      → tenant_key wrapper codec draw tenant_id true keys ≡ ok (dek, keys')
      → Keyed tenant_id dek keys keys'
  unfolding tenant_key row_for
  tenant_key-Keyed draw tenant_id keys keys' dek h =
      let (row, chosen, h₁) =
        >>=-eq-ok (row_for wrapper codec draw tenant_id true (find_key tenant_id keys)) _ h in
      let (k, key, same) =
        >>=-eq-ok (key_of_row wrapper codec tenant_id row.destroyed_at row.wrapped_dek) _ h₁ in
      let e : k ≡ dek = ground (arith, same) in
      record {
        row = row;
        now = draw.now;
        mine = row_for-tenant draw tenant_id true keys row chosen;
        first = λ r found. cc (rw (found, row_for) at chosen);
        key = key ∙ ap (λ d. ok d) e;
        saved = ground (arith, same);
      }

  pub Opens-of_Keyed :
      (tenant_id : String) (dek : Bytes) (keys keys' : List TenantKey)
      → Keyed tenant_id dek keys keys'
      → Opens tenant_id dek keys'
  Opens-of_Keyed tenant_id dek keys keys' k =
      rw k.saved (Opens-save_key tenant_id dek k.row k.now keys k.mine k.key)

  -- An encryption for any tenant leaves a live key as it is.
  pub Opens-Keyed :
      (tenant_id other : String) (dek dek' : Bytes) (keys keys' : List TenantKey)
      → Opens tenant_id dek keys
      → Keyed other dek' keys keys'
      → Opens tenant_id dek keys'
  Opens-Keyed tenant_id other dek dek' keys keys' o k = elim (Bool-cases (str_eq other tenant_id)) [
    | inl same ↦
        let e : other ≡ tenant_id = (eq_iff other tenant_id).0 same in
        let first : o.row ≡ k.row =
          k.first o.row (subst (λ t. find_key t keys ≡ some o.row) (sym e) o.found) in
        rw k.saved (
          Opens-save_key tenant_id dek k.row k.now keys (k.mine ∙ e) (
            ap (λ (r : TenantKey). key_of_row wrapper codec tenant_id r.destroyed_at r.wrapped_dek)
              (sym first)
            ∙ o.key))
    | inr apart ↦
        let ne : k.row.tenant_id ≢ tenant_id =
          λ e. ground (arith, eq_iff other tenant_id, sym k.mine ∙ e) in
        record {
          row = o.row;
          found =
              ap (find_key tenant_id) k.saved
              ∙ find_key-save_key_ne (record k.row { last_encrypted_at = k.now }) tenant_id keys ne
              ∙ o.found;
          key = o.key;
        }
  ]

  -- A live key is found again, and nothing is written, where none is created.
  pub Opens-tenant_key :
      (draw : Draw) (tenant_id : String) (dek : Bytes) (keys : List TenantKey)
      → Opens tenant_id dek keys
      → tenant_key wrapper codec draw tenant_id false keys ≡ ok (dek, keys)
  unfolding tenant_key row_for
  Opens-tenant_key draw tenant_id dek keys o = rw (o.found, row_for, o.key) refl
