-- ===== src/Crypto.antt =====
-- The AES-256-GCM encryptor of internal/crypto/aes.go.
-- The cipher itself and base64 are interfaces with the laws that the code relies on; random bytes
-- are an argument.
pub mod Keys
pub mod RoundTrip
pub mod Examples
use marmot_cli.Common.{
  ℕ, ◌≡◌, Bool, not, ◌||◌, List, [], ◌∷◌, ◌++◌, Option, none, some, Bytes, Result, ok, err, ◌>>=◌,
  ◌>>◌, fail_if, or_fail, ◌==◌, length, if◌then◌else◌,
}
use marmot_cli.Streams.{Reader, Writer, read_all, read_full, write}
use marmot_cli.Files.{Disk, find_file, write_file}

-- Go's `cipher.AEAD` for AES in Galois counter mode, with no additional data: what was sealed under
-- a key and a nonce is opened under them.
pub record Gcm : Type 0 where
  pub seal : Bytes → Bytes → Bytes → Bytes
  pub open_sealed : Bytes → Bytes → Bytes → Option Bytes
  pub open-seal : (key nonce text : Bytes) → open_sealed key nonce (seal key nonce text) ≡ some text

-- Go's `base64.StdEncoding`.
pub record Base64 : Type 0 where
  pub encode : Bytes → Bytes
  pub decode : Bytes → Option Bytes
  pub decode-encode : (bs : Bytes) → decode (encode bs) ≡ some bs

pub data CryptoError : Type 0 where
  random_failed read_key_failed write_key_failed : Bytes → CryptoError
  bad_key_length : ℕ → CryptoError
  no_key bad_base64 bad_cipher_key open_failed : CryptoError
  nonce_failed write_nonce_failed read_plaintext_failed write_sealed_failed : Bytes → CryptoError
  read_nonce_failed read_ciphertext_failed write_plaintext_failed : Bytes → CryptoError

pub record AesEncryptor : Type 0 where
  pub key : Bytes

unfoldable pub new_aes_encryptor : AesEncryptor
new_aes_encryptor = record { key = [] }

-- The error of a standard library call, wrapped.
abbrev pub wrap {ℓ} : {A : Type ℓ} → (Bytes → CryptoError) → Result Bytes A → Result CryptoError A
wrap f (ok a) = ok a
wrap f (err e) = err (f e)

-- `rand.Read` fills the buffer of 32 bytes or fails.
unfoldable pub generate_key : Result Bytes Bytes → Result CryptoError Bytes
generate_key random = wrap random_failed random

unfoldable pub load_key : Bytes → AesEncryptor → AesEncryptor × Result CryptoError (Unit {0})
load_key key e =
    if length key == 32
    then (record e { key = key }, ok tt)
    else (e, err (bad_key_length (length key)))

-- `fault` is the error of `os.ReadFile`, also for a file that is not there.
unfoldable pub load_key_from_file :
    Bytes → Bytes → Disk → Bytes → AesEncryptor → AesEncryptor × Result CryptoError (Unit {0})
load_key_from_file dir name disk fault e = elim (find_file dir name disk) [
  | none ↦ (e, err (read_key_failed fault))
  | some f ↦ load_key f.content e
]

-- The error of `os.WriteFile`, and what it leaves in the file if it had opened it, which truncates it.
abbrev pub WriteFault : Type 0
WriteFault = Option (Bytes × Option Bytes)

abbrev written_part : Option Bytes → Bytes → Bytes → ℕ → Disk → Disk
written_part none dir name now disk = disk
written_part (some left) dir name now disk = write_file dir name left now disk

unfoldable pub save_key_to_file :
    WriteFault → Bytes → Bytes → ℕ → AesEncryptor → Disk → Disk × Result CryptoError (Unit {0})
save_key_to_file fault dir name now e disk =
    if length e.key == 0 then (disk, err no_key) else elim fault [
      | some (m, left) ↦ (written_part left dir name now disk, err (write_key_failed m))
      | none ↦ (write_file dir name e.key now disk, ok tt)
    ]

unfoldable pub export_key_as_base64 : Base64 → AesEncryptor → Result CryptoError Bytes
export_key_as_base64 b e = if length e.key == 0 then err no_key else ok (b.encode e.key)

unfoldable pub import_key_from_base64 :
    Base64 → Bytes → AesEncryptor → AesEncryptor × Result CryptoError (Unit {0})
import_key_from_base64 b text e = elim (b.decode text) [
  | none ↦ (e, err bad_base64)
  | some key ↦ load_key key e
]

-- `aes.NewCipher` takes keys of 16, 24 and 32 bytes.
abbrev pub cipher_key : Bytes → Bool
cipher_key key = length key == 16 || length key == 24 || length key == 32

-- `gcm.NonceSize()`
abbrev pub nonce_size : ℕ
nonce_size = 12

-- A step that writes: the writer is kept also where the step fails.
abbrev pub then_write :
    (Bytes → CryptoError)
    → Writer × Result Bytes (Unit {0})
    → (Writer → Writer × Result CryptoError (Unit {0}))
    → Writer × Result CryptoError (Unit {0})
then_write f (w, ok _) k = k w
then_write f (w, err m) k = (w, err (f m))

abbrev pub with_value :
    Writer
    → Result CryptoError Bytes
    → (Bytes → Writer × Result CryptoError (Unit {0}))
    → Writer × Result CryptoError (Unit {0})
with_value w (ok a) k = k a
with_value w (err x) k = (w, err x)

-- The guards at the head of `Encrypt` and `Decrypt`.
pub key_ready : AesEncryptor → Result CryptoError Bytes
key_ready e =
    if length e.key == 0
    then err no_key
    else if cipher_key e.key
    then ok e.key
    else err bad_cipher_key

-- `random` is what `io.ReadFull(rand.Reader, nonce)` yields. The nonce is written before the
-- plaintext is read.
unfoldable pub encrypt :
    Gcm
    → Result Bytes Bytes
    → AesEncryptor
    → Reader
    → Writer
    → Writer × Result CryptoError (Unit {0})
unfolding key_ready
encrypt g random e plaintext w = with_value w (key_ready e) λ key.
    with_value w (wrap nonce_failed random) λ nonce.
      then_write write_nonce_failed (write w nonce) λ w'.
        with_value w' (wrap read_plaintext_failed (read_all plaintext)) λ text.
          then_write write_sealed_failed (write w' (g.seal key nonce text)) λ w''. (w'', ok tt)

open_text : Gcm → Bytes → Bytes → Bytes → Result CryptoError Bytes
open_text g key nonce sealed = or_fail (g.open_sealed key nonce sealed) open_failed

-- The text that `Decrypt` arrives at before it writes.
decrypted : Gcm → AesEncryptor → Reader → Result CryptoError Bytes
unfolding key_ready open_text
decrypted g e ciphertext = do
  key ← key_ready e
  (nonce, rest) ← wrap read_nonce_failed (read_full nonce_size ciphertext)
  sealed ← wrap read_ciphertext_failed (read_all rest)
  open_text g key nonce sealed

pub decrypt : Gcm → AesEncryptor → Reader → Writer → Writer × Result CryptoError (Unit {0})
unfolding decrypted
decrypt g e ciphertext w =
    with_value w (decrypted g e ciphertext)
      λ text. then_write write_plaintext_failed (write w text) λ w'. (w', ok tt)
