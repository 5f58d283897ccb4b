-- ===== src/Scenario/Vaults.antt =====
-- The theorems on encrypted data, with a cipher and a codec that keep the laws and hide nothing.
use agent_reliability_runtim.Prelude.{
  ℕ, zero, suc, ◌+◌, String, ◌≡◌, refl, ap, ◌∙◌, false, true, Option, none, some, List, [], ◌∷◌,
  ◌==◌, code, arith, if◌then◌else◌, ◌⊎◌, length, min, max,
}
use agent_reliability_runtim.Prelude.Result.{Result, ok, raise}
use agent_reliability_runtim.Json.{str, Fields, end}
use agent_reliability_runtim.Store.{Uuid}
use agent_reliability_runtim.Evaluation.Safety.{is_one_of}
use agent_reliability_runtim.Security.Vault.{
  Bytes, Cipher, Wrapper, Codec, local_key_wrapper, local_wrap, local_unwrap, drop,
}
use agent_reliability_runtim.Security.Envelope.{
  TenantKey, Vault, Draw, encrypt, decrypt, tenant_key, row_for, new_key, key_of_row, unwrapped,
  bound_key, prefix_of, after_prefix, find_key, save_key, is_of_tenant, aad, sealed_envelope,
  erase_tenant_key, erase_found, erase_row, has_unsafe, is_recent, is_confirmed,
}
use agent_reliability_runtim.Security.Envelope.Sealing.{nothing, decrypt-encrypt}
use agent_reliability_runtim.Security.Envelope.Candidates.{
  TenantsUnique, retention_candidates, retention_candidates_cases,
}
use agent_reliability_runtim.Security.Envelope.Erasure.{IsErased, erase_tenant_key-IsErased}

-- A text of ones and commas for a list of numbers.
abbrev unary : ℕ → String → String
unary zero s = String.◌∷◌ "," s
unary (suc n) s = String.◌∷◌ "1" (unary n s)

abbrev text_of : Bytes → String
text_of [] = ""
text_of (b ∷ bs) = unary b (text_of bs)

abbrev cons_to : ℕ → Option Bytes → Option Bytes
cons_to n none = none
cons_to n (some bs) = some (n ∷ bs)

abbrev bytes_of : ℕ → String → Option Bytes
bytes_of n String.[] = some []
bytes_of n (String.◌∷◌ c s) =
    let rest = bytes_of 0 s in
    let longer = bytes_of (suc n) s in if code c == 44 then cons_to n rest else longer

bytes_of-unary : (n m : ℕ) (s : String) → bytes_of m (unary n s) ≡ cons_to (n + m) (bytes_of 0 s)
bytes_of-unary zero m s = ap (λ k. cons_to k (bytes_of 0 s)) (omega arith)
bytes_of-unary (suc n) m s =
    bytes_of-unary n (suc m) s ∙ ap (λ k. cons_to k (bytes_of 0 s)) (omega arith)

bytes_of-text_of : (bs : Bytes) → bytes_of 0 (text_of bs) ≡ some bs
bytes_of-text_of [] = refl
bytes_of-text_of (b ∷ bs) =
    bytes_of-unary b 0 (text_of bs)
    ∙ ap (cons_to (b + 0)) (bytes_of-text_of bs)
    ∙ ap (λ k. some (k ∷ bs)) (omega arith)

abbrev cipher : Cipher
cipher = record {
  seal = λ key nonce plain aad. plain;
  unseal = λ key nonce sealed aad. some sealed;
  unseal-seal = λ key nonce plain aad. refl;
}

abbrev codec : Codec
codec = record {
  encode = λ s. [];
  dumps = λ value. ok (7 ∷ []);
  loads = λ plaintext. ok (str "secret");
  b64encode = text_of;
  b64decode = bytes_of 0;
  b64decode-b64encode = bytes_of-text_of;
}

abbrev twelve : Bytes
twelve = 1 ∷ 2 ∷ 3 ∷ 4 ∷ 5 ∷ 6 ∷ 7 ∷ 8 ∷ 9 ∷ 10 ∷ 11 ∷ 12 ∷ []

abbrev draw : Draw
draw = record {
  now = 5;
  dek =
      1 ∷ 2 ∷ 3 ∷ 4 ∷ 5 ∷ 6 ∷ 7 ∷ 8 ∷ 9 ∷ 10 ∷ 11 ∷ 12 ∷ 13 ∷ 14 ∷ 15 ∷ 16 ∷ 17 ∷ 18 ∷ 19 ∷ 20 ∷ 21
      ∷ 22 ∷ 23 ∷ 24 ∷ 25 ∷ 26 ∷ 27 ∷ 28 ∷ 29 ∷ 30 ∷ 31 ∷ 32 ∷ [];
  wrap_nonce = twelve;
  nonce = twelve;
}

abbrev wrapper : Wrapper
wrapper = local_key_wrapper cipher [] []

abbrev associated : String → Uuid → String → Bytes
associated tenant_id run_id name = []

abbrev of_call : Result (Fields × List TenantKey) → Fields × List TenantKey
of_call (ok done) = done
of_call (raise _) = (end, [])

abbrev sealed : Result (Fields × List TenantKey)
sealed = encrypt wrapper codec cipher associated draw "acme" 1 "input" (str "secret") []

sealed_ok : sealed ≡ ok ((of_call sealed).0, (of_call sealed).1)
unfolding encrypt tenant_key row_for new_key key_of_row unwrapped bound_key prefix_of after_prefix
    find_key save_key is_of_tenant aad sealed_envelope local_key_wrapper local_wrap local_unwrap
    drop is_one_of
sealed_ok = refl

decrypt-encrypt_example :
    decrypt wrapper codec cipher associated draw "acme" 1 "input"
      (of_call sealed).0
      (of_call sealed).1
    ≡ ok (str "secret")
decrypt-encrypt_example =
    decrypt-encrypt wrapper codec cipher associated draw draw "acme" 1 "input" (str "secret") []
      (of_call sealed).1 (of_call sealed).1 (of_call sealed).0 refl (λ plaintext written. refl)
      sealed_ok nothing

-- The tenant's key, with no run of its own.
abbrev vault : Vault
vault = record {
  keys =
      record {
        tenant_id = "acme";
        wrapped_dek = some [];
        last_encrypted_at = 5;
        destroyed_at = none;
      }
      ∷ [];
  audit = [];
}

abbrev emptied : Vault
emptied =
    erase_row 9 "acme" "ann"
      (record {
        tenant_id = "acme";
        wrapped_dek = some [];
        last_encrypted_at = 5;
        destroyed_at = none;
      })
      vault

erased_ok : erase_tenant_key 9 "acme" "ann" false (some "acme") none [] vault ≡ ok (true, emptied)
unfolding erase_tenant_key erase_found find_key is_of_tenant has_unsafe is_recent is_confirmed
erased_ok = refl

erase_tenant_key-IsErased_example :
    IsErased wrapper codec cipher associated "acme" "ann" none [] vault emptied emptied.keys
erase_tenant_key-IsErased_example =
    erase_tenant_key-IsErased wrapper codec cipher associated 9 "acme" "ann" (some "acme") none []
      vault emptied emptied.keys erased_ok nothing

alone : TenantsUnique vault.keys
unfolding is_of_tenant
alone tenant_id = ground arith

abbrev candidates : List String
candidates = retention_candidates (λ s t. true) 7 100 [] vault.keys

acme_is_candidate : candidates ≡ "acme" ∷ []
unfolding retention_candidates has_unsafe
acme_is_candidate = refl

retention_candidates_cases_example :
    ((is_one_of "acme" candidates ≡ true)
      × ((row : TenantKey) × (find_key "acme" vault.keys ≡ some row)
          × (erase_tenant_key 9 "acme" "ann" false (some "acme") (some 7) [] vault
              ≡ ok (true, erase_row 9 "acme" "ann" row vault))))
    ⊎ ((is_one_of "acme" candidates ≡ false)
        × ((erase_tenant_key 9 "acme" "ann" true none (some 7) [] vault ≡ ok (false, vault))
            ⊎ (length candidates ≡ max 1 (min 100 100))))
retention_candidates_cases_example =
    retention_candidates_cases (λ s t. true) 9 7 100 "acme" "ann" [] vault alone
