-- ===== src/Security/Envelope/Erasure.antt =====
-- An erased key stays erased, and nothing is read or written under it again
-- (src/agent_runtime/security/envelope.py).
use agent_reliability_runtim.Prelude.{
  String, ◌≡◌, ◌≢◌, refl, sym, ap, ◌∙◌, subst, Bool, true, false, Option, some, List, [], ◌∷◌, ◌++◌,
  arith, inl, inr, str_eq, eq_iff, Bool-cases, Option-cases,
}
use agent_reliability_runtim.Prelude.Result.{ok, raise, key_destroyed}
use agent_reliability_runtim.Json.{Json, Fields, get}
use agent_reliability_runtim.Store.{Uuid, Time, Run}
use agent_reliability_runtim.Security.Vault.{Bytes, Cipher, Wrapper, Codec, safe_text}
use agent_reliability_runtim.Security.Envelope.{
  TenantKey, Vault, find_key, Draw, key_of_row, row_for, tenant_key, encrypt, has_format, decrypt,
  has_unsafe, destroyed, erase_row, erase_found, erase_tenant_key,
}
use agent_reliability_runtim.Security.Envelope.Keys.{
  find_key-save_key, find_key-save_key_ne, find_key-tenant, erase_found_cases,
  erase_tenant_key-others,
}
use agent_reliability_runtim.Security.Envelope.Live.{Keyed}
use agent_reliability_runtim.Security.Envelope.Sealing.{
  encrypt-Sealed, Between, nothing, encrypts, erases,
}

-- The tombstone of a key.
pub record IsDestroyed (tenant_id : String) (keys : List TenantKey) : Type 0 where
  pub row : TenantKey
  pub found : find_key tenant_id keys ≡ some row
  pub at : Time
  pub destroyed : row.destroyed_at ≡ some at

IsDestroyed-of_same :
    (tenant_id : String) (keys keys' : List TenantKey)
    → find_key tenant_id keys' ≡ find_key tenant_id keys
    → IsDestroyed tenant_id keys
    → IsDestroyed tenant_id keys'
IsDestroyed-of_same tenant_id keys keys' same g = record {
  row = g.row;
  found = same ∙ g.found;
  at = g.at;
  destroyed = g.destroyed;
}

-- An erasure of the tenant itself finds the tombstone and does nothing.
erase_tenant_key-IsDestroyed :
    (now : Time) (tenant_id other principal_id : String) (dry_run : Bool)
    (confirm_tenant : Option String) (cutoff : Option Time) (runs : List Run) (vault : Vault)
    (answer : Bool) (vault' : Vault)
    → erase_tenant_key now other principal_id dry_run confirm_tenant cutoff runs vault
      ≡ ok (answer, vault')
    → IsDestroyed tenant_id vault.keys
    → IsDestroyed tenant_id vault'.keys
unfolding erase_tenant_key
erase_tenant_key-IsDestroyed now tenant_id other principal_id dry_run confirm_tenant cutoff runs
      vault answer vault' h g =
    elim (Bool-cases (str_eq other tenant_id)) [
      | inr apart ↦
          IsDestroyed-of_same tenant_id vault.keys vault'.keys
            (erase_tenant_key-others now other principal_id dry_run confirm_tenant cutoff runs vault
              answer vault' h tenant_id (λ e. ground (arith, eq_iff other tenant_id)))
            g
      | inl same ↦
          let e : other ≡ tenant_id = (eq_iff other tenant_id).0 same in
          let found : find_key other vault.keys ≡ some g.row =
            subst (λ t. find_key t vault.keys ≡ some g.row) (sym e) g.found in
          elim (erase_found_cases now other principal_id dry_run confirm_tenant cutoff runs vault
            g.row answer vault' (rw found at h)) [
              | inl (kept, _) ↦ subst (λ (v : Vault). IsDestroyed tenant_id v.keys) (sym kept) g
              | inr e ↦ absurd (let live = rw g.destroyed at e.live in cc live)
            ]
    ]

-- An erasure that says True, and was not dry, has left the tombstone and the audit row.
erased :
    (now : Time) (tenant_id principal_id : String) (confirm_tenant : Option String)
    (cutoff : Option Time) (runs : List Run) (vault vault' : Vault)
    → erase_tenant_key now tenant_id principal_id false confirm_tenant cutoff runs vault
      ≡ ok (true, vault')
    → IsDestroyed tenant_id vault'.keys
      × (has_unsafe tenant_id cutoff runs ≡ false)
      × (vault'.audit
          ≡ vault.audit
            ++ record {
              client_id = safe_text 128 tenant_id;
              principal_id = safe_text 128 principal_id;
            }
              ∷ [])
unfolding erase_tenant_key erase_found erase_row destroyed
erased now tenant_id principal_id confirm_tenant cutoff runs vault vault' h =
    elim (Option-cases (find_key tenant_id vault.keys)) [
      | inl missing ↦ absurd (ground (arith, rw missing at h))
      | inr (row, found) ↦
          elim (erase_found_cases now tenant_id principal_id false confirm_tenant cutoff runs vault
            row true vault' (rw found at h)) [
              | inl (_, inl refused) ↦ absurd (cc refused)
              | inl (_, inr dry) ↦ absurd (cc dry)
              | inr e ↦ (
                record {
                  row = destroyed now row;
                  found =
                      subst (λ t. find_key t vault'.keys ≡ some (destroyed now row))
                        (find_key-tenant tenant_id vault.keys row found)
                        (ap (λ (v : Vault). find_key row.tenant_id v.keys) e.gone
                          ∙ find_key-save_key (destroyed now row) vault.keys);
                  at = now;
                  destroyed = refl;
                },
                e.safe,
                ap (λ (v : Vault). v.audit) e.gone,
              )
            ]
    ]

module _ (wrapper : Wrapper) (codec : Codec) where
  -- There is no key to be had, whether or not one is asked to be made.
  tenant_key-IsDestroyed :
      (draw : Draw) (tenant_id : String) (create : Bool) (keys : List TenantKey)
      → IsDestroyed tenant_id keys
      → tenant_key wrapper codec draw tenant_id create keys ≡ raise key_destroyed
  unfolding tenant_key row_for key_of_row
  tenant_key-IsDestroyed draw tenant_id create keys g = rw (g.found, g.destroyed) refl

  Keyed-IsDestroyed :
      (tenant_id other : String) (dek : Bytes) (keys keys' : List TenantKey)
      → Keyed wrapper codec other dek keys keys'
      → IsDestroyed tenant_id keys
      → IsDestroyed tenant_id keys'
  unfolding key_of_row
  Keyed-IsDestroyed tenant_id other dek keys keys' k g =
      elim (Bool-cases (str_eq other tenant_id)) [
        | inl same ↦
            let e : other ≡ tenant_id = (eq_iff other tenant_id).0 same in
            let first : g.row ≡ k.row =
              k.first g.row (subst (λ t. find_key t keys ≡ some g.row) (sym e) g.found) in
            absurd (let raised = rw (← first, g.destroyed) at k.key in cc raised)
        | inr apart ↦
            let ne : k.row.tenant_id ≢ tenant_id =
              λ e. ground (arith, eq_iff other tenant_id, sym k.mine ∙ e) in
            IsDestroyed-of_same tenant_id keys keys'
              (ap (find_key tenant_id) k.saved
                ∙ find_key-save_key_ne (record k.row { last_encrypted_at = k.now }) tenant_id keys
                    ne)
              g
      ]

module _ (wrapper : Wrapper) (codec : Codec) (cipher : Cipher)
    (associated : String → Uuid → String → Bytes) where
  IsDestroyed-Between :
      (tenant_id : String) (keys last : List TenantKey)
      → Between wrapper codec cipher associated (λ other. Unit {0}) keys last
      → IsDestroyed tenant_id keys
      → IsDestroyed tenant_id last
  IsDestroyed-Between tenant_id keys last nothing g = g
  IsDestroyed-Between tenant_id keys last
        (encrypts draw other run_id name value envelope mid done rest) g =
      let s =
        encrypt-Sealed wrapper codec cipher associated draw other run_id name value keys envelope
          mid done in
      IsDestroyed-Between tenant_id mid last rest
        (Keyed-IsDestroyed wrapper codec tenant_id other s.dek keys mid s.keyed g)
  IsDestroyed-Between tenant_id keys last
        (erases now other principal_id dry_run confirm_tenant cutoff runs vault answer mid _ done
          rest)
        g =
      IsDestroyed-Between tenant_id mid.keys last rest (
        erase_tenant_key-IsDestroyed now tenant_id other principal_id dry_run confirm_tenant cutoff
          runs vault answer mid done g)

  -- What an erasure has come to, after whatever calls.
  pub record IsErased (tenant_id principal_id : String) (cutoff : Option Time) (runs : List Run)
      (vault vault' : Vault) (last : List TenantKey) : Type 0 where
    pub safe : has_unsafe tenant_id cutoff runs ≡ false
    pub recorded :
        vault'.audit
        ≡ vault.audit
          ++ record {
            client_id = safe_text 128 tenant_id;
            principal_id = safe_text 128 principal_id;
          }
            ∷ []
    pub others :
        (other : String)
        → tenant_id ≢ other
        → find_key other vault'.keys ≡ find_key other vault.keys
    pub sealed :
        (draw : Draw) (run_id : Uuid) (name : String) (value : Json)
        → encrypt wrapper codec cipher associated draw tenant_id run_id name value last
          ≡ raise key_destroyed
    pub unread :
        (draw : Draw) (run_id : Uuid) (name : String) (envelope : Fields)
        → has_format wrapper codec cipher associated (get "format" envelope) ≡ true
        → decrypt wrapper codec cipher associated draw tenant_id run_id name envelope last
          ≡ raise key_destroyed

  -- After an erasure that says True and was not dry: no run of the tenant was unfinished, or
  -- finished after the cutoff, an audit row is added, the keys of other tenants are as before,
  -- and, whatever encryptions and erasures follow, encrypt and, for a well-formed envelope,
  -- decrypt raise KeyDestroyedError for the tenant.
  pub erase_tenant_key-IsErased :
      (now : Time) (tenant_id principal_id : String) (confirm_tenant : Option String)
      (cutoff : Option Time) (runs : List Run) (vault vault' : Vault) (last : List TenantKey)
      → erase_tenant_key now tenant_id principal_id false confirm_tenant cutoff runs vault
        ≡ ok (true, vault')
      → Between wrapper codec cipher associated (λ other. Unit {0}) vault'.keys last
      → IsErased tenant_id principal_id cutoff runs vault vault' last
  unfolding encrypt decrypt
  erase_tenant_key-IsErased now tenant_id principal_id confirm_tenant cutoff runs vault vault' last
        h between =
      let (g, safe, recorded) =
        erased now tenant_id principal_id confirm_tenant cutoff runs vault vault' h in
      let gone = IsDestroyed-Between tenant_id vault'.keys last between g in
      record {
        safe = safe;
        recorded = recorded;
        others =
            erase_tenant_key-others now tenant_id principal_id false confirm_tenant cutoff runs
              vault true vault' h;
        sealed = λ draw run_id name value.
            rw (tenant_key-IsDestroyed wrapper codec draw tenant_id true last gone) refl;
        unread = λ draw run_id name envelope read.
            rw (read, tenant_key-IsDestroyed wrapper codec draw tenant_id false last gone) refl;
      }
