-- ===== src/Security/Envelope.antt =====
-- `TenantEnvelope` and `erase_tenant_key` of src/agent_runtime/security/envelope.py, with `TenantKey` of
-- src/agent_runtime/infrastructure/database/models.py.
pub mod Keys
pub mod Live
pub mod Sealing
pub mod Erasure
pub mod Candidates
use agent_reliability_runtim.Prelude.{
  ℕ, String, Bool, true, false, not, ◌&&◌, ◌||◌, Option, none, some, List, [], ◌∷◌, ◌++◌, take,
  length, ltb, ◌==◌, str_eq, first_row, is_some, if◌then◌else◌,
}
use agent_reliability_runtim.Prelude.Result.{
  Result, ok, raise, key_destroyed, invalid_tag, value_error, key_error, type_error, ◌>>=◌, ◌>>◌,
}
use agent_reliability_runtim.Json.{Json, str, obj, Fields, end, field, get, put}
use agent_reliability_runtim.Store.{Uuid, Time, Run}
use agent_reliability_runtim.Evaluation.Safety.{is_one_of}
use agent_reliability_runtim.Security.Vault.{Bytes, drop, Cipher, Wrapper, Codec, safe_text}

pub record TenantKey : Type 0 where
  pub tenant_id : String
  pub wrapped_dek : Option Bytes
  pub last_encrypted_at : Time
  pub destroyed_at : Option Time

-- The audit row of an erasure.
pub record ErasureEvent : Type 0 where
  pub client_id : String
  pub principal_id : String

pub record Vault : Type 0 where
  pub keys : List TenantKey
  pub audit : List ErasureEvent

unfoldable pub is_of_tenant : String → TenantKey → Bool
is_of_tenant tenant_id row = str_eq row.tenant_id tenant_id

unfoldable pub find_key : String → List TenantKey → Option TenantKey
find_key tenant_id keys = first_row (is_of_tenant tenant_id) keys

-- The row of its tenant, or a new one at the end.
unfoldable pub save_key : TenantKey → List TenantKey → List TenantKey
save_key row [] = row ∷ []
save_key row (k ∷ ks) = if is_of_tenant row.tenant_id k then row ∷ ks else k ∷ save_key row ks

-- The bytes after a prefix.
unfoldable pub after_prefix : Bytes → Bytes → Option Bytes
after_prefix [] raw = some raw
after_prefix (p ∷ ps) [] = none
after_prefix (p ∷ ps) (b ∷ raw) = if p == b then after_prefix ps raw else none

-- The clock and the random bytes of a call.
pub record Draw : Type 0 where
  pub now : Time
  pub dek : Bytes
  pub wrap_nonce : Bytes
  pub nonce : Bytes

module _ (wrapper : Wrapper) (codec : Codec) where
  unfoldable pub prefix_of : String → Bytes
  prefix_of tenant_id = codec.encode tenant_id ++ 0 ∷ []

  unfoldable pub new_key : Draw → String → TenantKey
  new_key draw tenant_id = record {
    tenant_id = tenant_id;
    wrapped_dek = some (wrapper.wrap draw.wrap_nonce (prefix_of tenant_id ++ draw.dek));
    last_encrypted_at = draw.now;
    destroyed_at = none;
  }

  -- The key in what was unwrapped, if it is bound to the tenant.
  unfoldable pub bound_key : Option Bytes → Result Bytes
  bound_key none = raise key_destroyed
  bound_key (some dek) = if length dek == 32 then ok dek else raise key_destroyed

  unfoldable pub unwrapped : String → Option Bytes → Result Bytes
  unwrapped tenant_id none = raise invalid_tag
  unwrapped tenant_id (some raw) = bound_key (after_prefix (prefix_of tenant_id) raw)

  unfoldable pub key_of_row : String → Option Time → Option Bytes → Result Bytes
  key_of_row tenant_id none (some wrapped) = unwrapped tenant_id (wrapper.unwrap wrapped)
  key_of_row tenant_id destroyed_at wrapped_dek = raise key_destroyed

  -- The row that `_key` goes on with.
  unfoldable pub row_for : Draw → String → Bool → Option TenantKey → Result TenantKey
  row_for draw tenant_id create (some row) = ok row
  row_for draw tenant_id true none = ok (new_key draw tenant_id)
  row_for draw tenant_id false none = raise key_destroyed

  -- `_key`
  unfoldable pub tenant_key :
      Draw → String → Bool → List TenantKey → Result (Bytes × List TenantKey)
  tenant_key draw tenant_id create keys = do
    row ← row_for draw tenant_id create (find_key tenant_id keys)
    dek ← key_of_row tenant_id row.destroyed_at row.wrapped_dek
    ok (dek, if create then save_key (record row { last_encrypted_at = draw.now }) keys else keys)

  module _ (cipher : Cipher) (associated : String → Uuid → String → Bytes) where
    -- `_aad`, whose text is `json.dumps([…])`.
    unfoldable pub aad : String → Uuid → String → Result Bytes
    aad tenant_id run_id name =
        if is_one_of name ("input" ∷ "result" ∷ "instructions" ∷ "evaluation_result" ∷ [])
        then ok (associated tenant_id run_id name)
        else raise value_error

    unfoldable pub sealed_envelope : Bytes → Fields
    sealed_envelope bs =
        field "format" (str "arr-envelope-v1") (field "data" (str (codec.b64encode bs)) end)

    unfoldable pub encrypt :
        Draw → String → Uuid → String → Json → List TenantKey → Result (Fields × List TenantKey)
    encrypt draw tenant_id run_id name value keys = do
      found ← tenant_key draw tenant_id true keys
      plaintext ← codec.dumps value
      extra ← aad tenant_id run_id name
      ok (sealed_envelope (draw.nonce ++ cipher.seal found.0 draw.nonce plaintext extra), found.1)

    unfoldable pub has_format : Option Json → Bool
    has_format (some (str s)) = str_eq s "arr-envelope-v1"
    has_format _ = false

    unfoldable pub data_of : Option Json → Result Bytes
    data_of none = raise key_error
    data_of (some (str s)) = elim (codec.b64decode s) [ none ↦ raise value_error | some bs ↦ ok bs ]
    data_of (some _) = raise type_error

    unfoldable pub opened : Option Bytes → Result Json
    opened none = raise invalid_tag
    opened (some plaintext) = codec.loads plaintext

    unfoldable pub decrypt : Draw → String → Uuid → String → Fields → List TenantKey → Result Json
    decrypt draw tenant_id run_id name envelope keys = do
      (if has_format (get "format" envelope) then ok tt else raise value_error)
      found ← tenant_key draw tenant_id false keys
      bytes ← data_of (get "data" envelope)
      extra ← aad tenant_id run_id name
      opened (cipher.unseal found.0 (take 12 bytes) (drop 12 bytes) extra)

    unfoldable pub without : String → Fields → Fields
    without key end = end
    without key (field k v d) =
        let rest = without key d in if str_eq k key then rest else field k v rest

    -- `protect_policy`
    unfoldable pub protect_policy :
        Draw → String → Uuid → Fields → List TenantKey → Result (Fields × List TenantKey)
    protect_policy draw tenant_id run_id policy keys =
        if is_some (get "_encrypted_instructions" policy)
        then raise value_error
        else elim (get "instructions" policy) [
          | none ↦ ok (policy, keys)
          | some instructions ↦
              encrypt draw tenant_id run_id "instructions" instructions keys >>= λ done.
              ok
                (put "_encrypted_instructions" (obj done.0) (without "instructions" policy), done.1)
        ]

-- A run of the tenant that has not been completed, or was after the cutoff.
unfoldable pub is_unsafe : String → Option Time → Run → Bool
is_unsafe tenant_id cutoff run = str_eq run.client_id tenant_id && elim run.completed_at [
  | none ↦ true
  | some completed_at ↦ elim cutoff [ none ↦ false | some at ↦ ltb at completed_at ]
]

unfoldable pub has_unsafe : String → Option Time → List Run → Bool
has_unsafe tenant_id cutoff [] = false
has_unsafe tenant_id cutoff (run ∷ runs) =
    is_unsafe tenant_id cutoff run || has_unsafe tenant_id cutoff runs

unfoldable pub is_recent : Option Time → TenantKey → Bool
is_recent none row = false
is_recent (some cutoff) row = ltb cutoff row.last_encrypted_at

unfoldable pub is_confirmed : Option String → String → Bool
is_confirmed none tenant_id = false
is_confirmed (some confirmed) tenant_id = str_eq confirmed tenant_id

unfoldable pub destroyed : Time → TenantKey → TenantKey
destroyed now row = record row { wrapped_dek = none; destroyed_at = some now }

-- The end of an erasure.
unfoldable pub erase_row : Time → String → String → TenantKey → Vault → Vault
erase_row now tenant_id principal_id row vault = record {
  keys = save_key (destroyed now row) vault.keys;
  audit =
      vault.audit
      ++ record { client_id = safe_text 128 tenant_id; principal_id = safe_text 128 principal_id }
        ∷ [];
}

unfoldable pub erase_found :
    Time
    → String
    → String
    → Bool
    → Option String
    → Option Time
    → List Run
    → Vault
    → Option TenantKey
    → Result (Bool × Vault)
erase_found now tenant_id principal_id dry_run confirm_tenant cutoff runs vault none =
    ok (false, vault)
erase_found now tenant_id principal_id dry_run confirm_tenant cutoff runs vault (some row) =
    if is_some row.destroyed_at || is_recent cutoff row || has_unsafe tenant_id cutoff runs
    then ok (false, vault)
    else if dry_run
    then ok (true, vault)
    else if not (is_confirmed confirm_tenant tenant_id)
    then raise value_error
    else ok (true, erase_row now tenant_id principal_id row vault)

-- `erase_tenant_key`
unfoldable pub erase_tenant_key :
    Time
    → String
    → String
    → Bool
    → Option String
    → Option Time
    → List Run
    → Vault
    → Result (Bool × Vault)
erase_tenant_key now tenant_id principal_id dry_run confirm_tenant cutoff runs vault =
    erase_found now tenant_id principal_id dry_run confirm_tenant cutoff runs vault
      (find_key tenant_id vault.keys)
