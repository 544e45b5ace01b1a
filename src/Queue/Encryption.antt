-- ===== src/Queue/Encryption.antt =====
-- backend/message_queue.py: the key of MessageQueue, and `encrypt_body` and `decrypt_body`. Fernet is
-- a parameter; a token is the text that its bytes spell, and the nonce stands for the time and the
-- random bytes that an encryption reads.
use indian_sim_sms_gateway.Prelude.{ℕ, ◌≡◌, refl, ap, Option, none, some, is_empty, if◌then◌else◌}
use indian_sim_sms_gateway.Prelude.Text.{Text}

pub record FernetLibrary : Type 1 where
  pub Key : Type 0
  -- `Fernet(key)`, which may raise
  pub make : Text → Option Key
  pub encrypt : Key → ℕ → Text → Text
  -- raises for a text that is no token of the key
  pub decrypt : Key → Text → Option Text

-- The `except` clause: the content as it came.
abbrev or_raw : Option Text → Text → Text
or_raw none body = body
or_raw (some t) body = t

module _ (lib : FernetLibrary) where
  open lib use {Key, make, encrypt, decrypt}

  -- A token can be read with the key that made it.
  abbrev pub Reads : Type 0
  Reads = (k : Key) (nonce : ℕ) (t : Text) → decrypt k (encrypt k nonce t) ≡ some t

  -- No key, or one that Fernet refuses, leaves encryption off.
  unfoldable pub fernet_of : Text → Option Key
  fernet_of key = if is_empty key then none else make key

  unfoldable pub decrypt_body : Option Key → Text → Text
  decrypt_body none body = body
  decrypt_body (some k) body = or_raw (decrypt k body) body

  unfoldable pub encrypt_body : Option Key → ℕ → Text → Text
  encrypt_body none nonce t = t
  encrypt_body (some k) nonce t = encrypt k nonce t

  decrypt_encrypted :
      (key : Option Key) (nonce : ℕ) (t : Text)
      → Reads
      → decrypt_body key (encrypt_body key nonce t) ≡ t
  unfolding decrypt_body encrypt_body
  decrypt_encrypted none nonce t reads = refl
  decrypt_encrypted (some k) nonce t reads =
      ap (λ r. or_raw r (encrypt k nonce t)) (reads k nonce t)

  -- If tokens can be read with the key that made them, an encrypted body is decrypted to itself,
  -- for every key in the settings: a valid one, an invalid one, or none.
  pub decrypt_body-encrypt_body :
      (key : Text) (nonce : ℕ) (t : Text)
      → Reads
      → decrypt_body (fernet_of key) (encrypt_body (fernet_of key) nonce t) ≡ t
  decrypt_body-encrypt_body key nonce t reads = decrypt_encrypted (fernet_of key) nonce t reads
