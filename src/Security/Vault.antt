-- ===== src/Security/Vault.antt =====
-- What src/agent_runtime/security/envelope.py uses of cryptography, base64 and json, with the laws that it
-- relies on, and its key wrapper with the one that the file has for development.
use agent_reliability_runtim.Prelude.{
  ℕ, zero, suc, String, ◌≡◌, refl, ap, ◌∙◌, ◌&&◌, Option, some, List, [], ◌∷◌, ◌++◌, take, length,
  ltb, leb, code, arith, if◌then◌else◌,
}
use agent_reliability_runtim.Prelude.Result.{Result}
use agent_reliability_runtim.Json.{Json}

abbrev pub Bytes : Type 0
Bytes = List ℕ

unfoldable pub drop : ℕ → Bytes → Bytes
drop zero bs = bs
drop (suc n) [] = []
drop (suc n) (b ∷ bs) = drop n bs

-- `AESGCM`: what was sealed under a key, a nonce and associated data opens under the same.
pub record Cipher : Type 0 where
  pub seal : Bytes → Bytes → Bytes → Bytes → Bytes
  pub unseal : Bytes → Bytes → Bytes → Bytes → Option Bytes
  pub unseal-seal :
      (key nonce plain aad : Bytes) → unseal key nonce (seal key nonce plain aad) aad ≡ some plain

-- `KeyWrapper`: wrapping takes a draw of random bytes.
pub record Wrapper : Type 0 where
  pub wrap : Bytes → Bytes → Bytes
  pub unwrap : Bytes → Option Bytes
  pub unwrap-wrap : (nonce dek : Bytes) → length nonce ≡ 12 → unwrap (wrap nonce dek) ≡ some dek

-- `encode`, `json` and `base64`.
pub record Codec : Type 0 where
  pub encode : String → Bytes
  pub dumps : Json → Result Bytes
  pub loads : Bytes → Result Json
  pub b64encode : Bytes → String
  pub b64decode : String → Option Bytes
  pub b64decode-b64encode : (bs : Bytes) → b64decode (b64encode bs) ≡ some bs

pub take-append : (n : ℕ) (xs ys : Bytes) → length xs ≡ n → take n (xs ++ ys) ≡ xs
take-append zero [] ys h = refl
take-append zero (x ∷ xs) ys h = absurd (ground arith)
take-append (suc n) [] ys h = absurd (ground arith)
take-append (suc n) (x ∷ xs) ys h = ap (λ zs. x ∷ zs) (take-append n xs ys (ground arith))

pub drop-append : (n : ℕ) (xs ys : Bytes) → length xs ≡ n → drop n (xs ++ ys) ≡ ys
unfolding drop
drop-append zero [] ys h = refl
drop-append zero (x ∷ xs) ys h = absurd (ground arith)
drop-append (suc n) [] ys h = absurd (ground arith)
drop-append (suc n) (x ∷ xs) ys h = drop-append n xs ys (ground arith)

-- `LocalKeyWrapper`
module _ (cipher : Cipher) (key label : Bytes) where
  unfoldable pub local_wrap : Bytes → Bytes → Bytes
  local_wrap nonce dek = nonce ++ cipher.seal key nonce dek label

  unfoldable pub local_unwrap : Bytes → Option Bytes
  local_unwrap blob = cipher.unseal key (take 12 blob) (drop 12 blob) label

  pub local_unwrap-local_wrap :
      (nonce dek : Bytes) → length nonce ≡ 12 → local_unwrap (local_wrap nonce dek) ≡ some dek
  unfolding local_wrap local_unwrap
  local_unwrap-local_wrap nonce dek h =
      let sealed = cipher.seal key nonce dek label in
      ap (λ bs. cipher.unseal key bs (drop 12 (nonce ++ sealed)) label)
        (take-append 12 nonce sealed h)
      ∙ ap (λ bs. cipher.unseal key nonce bs label) (drop-append 12 nonce sealed h)
      ∙ cipher.unseal-seal key nonce dek label

  unfoldable pub local_key_wrapper : Wrapper
  local_key_wrapper = record {
    wrap = local_wrap;
    unwrap = local_unwrap;
    unwrap-wrap = local_unwrap-local_wrap;
  }

-- `safe_text` of src/agent_runtime/security/audit.py
unfoldable pub safe_text : ℕ → String → String
safe_text zero s = String.[]
safe_text (suc n) String.[] = String.[]
safe_text (suc n) (String.◌∷◌ c s) =
    String.◌∷◌ (if leb 32 (code c) && ltb (code c) 127 then c else "_") (safe_text n s)
