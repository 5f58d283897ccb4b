-- ===== src/Security/Envelope/Sealing.antt =====
-- What was encrypted for a tenant is read back as long as its key is not erased
-- (src/agent_runtime/security/envelope.py).
use agent_reliability_runtim.Prelude.{
  String, ◌≡◌, ◌≢◌, ◌∙◌, subst, Bool, true, Option, List, ◌++◌, arith, length,
}
use agent_reliability_runtim.Prelude.Result.{ok, >>=-eq-ok}
use agent_reliability_runtim.Json.{Json, Fields, get}
use agent_reliability_runtim.Store.{Uuid, Time, Run}
use agent_reliability_runtim.Security.Vault.{
  Bytes, Cipher, Wrapper, Codec, take-append, drop-append,
}
use agent_reliability_runtim.Security.Envelope.{
  TenantKey, Vault, Draw, tenant_key, aad, sealed_envelope, encrypt, has_format, data_of, opened,
  decrypt, erase_tenant_key,
}
use agent_reliability_runtim.Security.Envelope.Keys.{erase_tenant_key-others}
use agent_reliability_runtim.Security.Envelope.Live.{
  Keyed, Opens, Opens-Keyed, Opens-of_Keyed, Opens-tenant_key, tenant_key-Keyed,
}

module _ (wrapper : Wrapper) (codec : Codec) (cipher : Cipher)
    (associated : String → Uuid → String → Bytes) where
  -- What a call of `encrypt` has done when it returns.
  pub record Sealed (draw : Draw) (tenant_id : String) (run_id : Uuid) (name : String)
      (value : Json) (keys : List TenantKey) (envelope : Fields) (keys' : List TenantKey)
      : Type 0 where
    pub dek : Bytes
    pub keyed : Keyed wrapper codec tenant_id dek keys keys'
    pub plaintext : Bytes
    pub written : codec.dumps value ≡ ok plaintext
    pub extra : Bytes
    pub allowed : aad wrapper codec cipher associated tenant_id run_id name ≡ ok extra
    pub made :
        envelope
        ≡ sealed_envelope wrapper codec cipher associated
            (draw.nonce ++ cipher.seal dek draw.nonce plaintext extra)

  pub encrypt-Sealed :
      (draw : Draw) (tenant_id : String) (run_id : Uuid) (name : String) (value : Json)
      (keys : List TenantKey) (envelope : Fields) (keys' : List TenantKey)
      → encrypt wrapper codec cipher associated draw tenant_id run_id name value keys
        ≡ ok (envelope, keys')
      → Sealed draw tenant_id run_id name value keys envelope keys'
  unfolding encrypt
  encrypt-Sealed draw tenant_id run_id name value keys envelope keys' h =
      let ((dek, later), found, h₁) =
        >>=-eq-ok (tenant_key wrapper codec draw tenant_id true keys) _ h in
      let (plaintext, written, h₂) = >>=-eq-ok (codec.dumps value) _ h₁ in
      let (extra, allowed, same) =
        >>=-eq-ok (aad wrapper codec cipher associated tenant_id run_id name) _ h₂ in
      let e : later ≡ keys' = ground (arith, same) in
      record {
        dek = dek;
        keyed =
            subst (Keyed wrapper codec tenant_id dek keys) e
              (tenant_key-Keyed wrapper codec draw tenant_id keys later dek found);
        plaintext = plaintext;
        written = written;
        extra = extra;
        allowed = allowed;
        made = ground (arith, same);
      }

  -- What may happen to the keys: encryptions for any tenant, and erasures of some.
  pub data Between (may_erase : String → Type 0) : List TenantKey → List TenantKey → Type 0 where
    nothing : {keys : List TenantKey} → Between may_erase keys keys
    encrypts :
        {keys last : List TenantKey} (draw : Draw) (other : String) (run_id : Uuid) (name : String)
        (value : Json) (envelope : Fields) (mid : List TenantKey)
        → encrypt wrapper codec cipher associated draw other run_id name value keys
          ≡ ok (envelope, mid)
        → Between may_erase mid last
        → Between may_erase keys last
    erases :
        {last : List TenantKey} (now : Time) (other principal_id : String) (dry_run : Bool)
        (confirm_tenant : Option String) (cutoff : Option Time) (runs : List Run) (vault : Vault)
        (answer : Bool) (mid : Vault)
        → may_erase other
        → erase_tenant_key now other principal_id dry_run confirm_tenant cutoff runs vault
          ≡ ok (answer, mid)
        → Between may_erase mid.keys last
        → Between may_erase vault.keys last

  Opens-Between :
      (tenant_id : String) (dek : Bytes) (keys last : List TenantKey)
      → Between (λ other. other ≢ tenant_id) keys last
      → Opens wrapper codec tenant_id dek keys
      → Opens wrapper codec tenant_id dek last
  Opens-Between tenant_id dek keys last nothing o = o
  Opens-Between tenant_id dek keys last
        (encrypts draw other run_id name value envelope mid done rest) o =
      let s = encrypt-Sealed draw other run_id name value keys envelope mid done in
      Opens-Between tenant_id dek mid last rest
        (Opens-Keyed wrapper codec tenant_id other dek s.dek keys mid o s.keyed)
  Opens-Between tenant_id dek keys last
        (erases now other principal_id dry_run confirm_tenant cutoff runs vault answer mid apart
          done rest)
        o =
      Opens-Between tenant_id dek mid.keys last rest (record {
        row = o.row;
        found =
            erase_tenant_key-others now other principal_id dry_run confirm_tenant cutoff runs vault
              answer mid done tenant_id apart
            ∙ o.found;
        key = o.key;
      })

  -- A value whose JSON text reads back, encrypted with a nonce of twelve bytes, is what decrypt
  -- returns for the same tenant, run and field, whatever encryptions for any tenant and erasures
  -- of other tenants come in between.
  pub decrypt-encrypt :
      (draw draw' : Draw) (tenant_id : String) (run_id : Uuid) (name : String) (value : Json)
      (keys mid last : List TenantKey) (envelope : Fields)
      → length draw.nonce ≡ 12
      → ((plaintext : Bytes) → codec.dumps value ≡ ok plaintext → codec.loads plaintext ≡ ok value)
      → encrypt wrapper codec cipher associated draw tenant_id run_id name value keys
        ≡ ok (envelope, mid)
      → Between (λ other. other ≢ tenant_id) mid last
      → decrypt wrapper codec cipher associated draw' tenant_id run_id name envelope last ≡ ok value
  unfolding decrypt sealed_envelope has_format data_of opened get
  decrypt-encrypt draw draw' tenant_id run_id name value keys mid last envelope sized loads done
        between =
      let s = encrypt-Sealed draw tenant_id run_id name value keys envelope mid done in
      let o =
        Opens-Between tenant_id s.dek mid last between
          (Opens-of_Keyed wrapper codec tenant_id s.dek keys mid s.keyed) in
      let found = Opens-tenant_key wrapper codec draw' tenant_id s.dek last o in
      let sealed = cipher.seal s.dek draw.nonce s.plaintext s.extra in
      rw
        (
          s.made,
          found,
          codec.b64decode-b64encode (draw.nonce ++ sealed),
          s.allowed,
          take-append 12 draw.nonce sealed sized,
          drop-append 12 draw.nonce sealed sized,
          cipher.unseal-seal s.dek draw.nonce s.plaintext s.extra,
        )
        (loads s.plaintext s.written)
