-- ===== src/Crypto/Keys.antt =====
-- The key that an encryptor holds, and its way through files and base64.
use marmot_cli.Common.{
  ℕ, ◌≡◌, ◌≢◌, ◌⊎◌, inl, inr, refl, List, [], ◌∷◌, none, arith, Bytes, Result, ok, err, length,
  Option-cases,
}
use marmot_cli.Streams.{Reader, Writer}
use marmot_cli.Files.{Disk, find_file}
use marmot_cli.Files.Laws.{find_file-write_file, same_place_refl}
use marmot_cli.Crypto.{
  Gcm, Base64, CryptoError, bad_cipher_key, AesEncryptor, new_aes_encryptor, load_key,
  load_key_from_file, save_key_to_file, export_key_as_base64, import_key_from_base64, encrypt,
  decrypt,
}

-- No key is loaded, or one for AES-256.
abbrev pub IsKeyed : AesEncryptor → Type 0
IsKeyed e = (e.key ≡ []) ⊎ (length e.key ≡ 32)

-- The ways to load a key.
pub data Load : Type 0 where
  bytes : Bytes → Load
  file : Bytes → Bytes → Disk → Bytes → Load
  base64 : Base64 → Bytes → Load

pub load : Load → AesEncryptor → AesEncryptor × Result CryptoError (Unit {0})
load (bytes key) e = load_key key e
load (file dir name disk fault) e = load_key_from_file dir name disk fault e
load (base64 b text) e = import_key_from_base64 b text e

pub load_all : List Load → AesEncryptor → AesEncryptor
load_all [] e = e
load_all (l ∷ ls) e = load_all ls (load l e).0

load_key-IsKeyed : (key : Bytes) (e : AesEncryptor) → IsKeyed e → IsKeyed (load_key key e).0
unfolding load_key
load_key-IsKeyed key e h = ground arith

load-IsKeyed : (l : Load) (e : AesEncryptor) → IsKeyed e → IsKeyed (load l e).0
unfolding load load_key_from_file import_key_from_base64
load-IsKeyed (bytes key) e h = load_key-IsKeyed key e h
load-IsKeyed (file dir name disk fault) e h = elim (Option-cases (find_file dir name disk)) [
  | inl p ↦ rw (p, load_key_from_file) h
  | inr (f, p) ↦ rw (p, load_key_from_file) (load_key-IsKeyed f.content e h)
]
load-IsKeyed (base64 b text) e h = elim (Option-cases (b.decode text)) [
  | inl p ↦ rw (p, import_key_from_base64) h
  | inr (k, p) ↦ rw (p, import_key_from_base64) (load_key-IsKeyed k e h)
]

load_all-IsKeyed : (ls : List Load) (e : AesEncryptor) → IsKeyed e → IsKeyed (load_all ls e)
unfolding load_all
load_all-IsKeyed [] e h = h
load_all-IsKeyed (l ∷ ls) e h = load_all-IsKeyed ls (load l e).0 (load-IsKeyed l e h)

encrypt_fits :
    (g : Gcm) (random : Result Bytes Bytes) (e : AesEncryptor) (r : Reader) (w : Writer)
    → IsKeyed e
    → (encrypt g random e r w).1 ≢ err bad_cipher_key
unfolding encrypt
encrypt_fits g random e r w h = ground arith

decrypt_fits :
    (g : Gcm) (e : AesEncryptor) (r : Reader) (w : Writer)
    → IsKeyed e
    → (decrypt g e r w).1 ≢ err bad_cipher_key
unfolding decrypt
decrypt_fits g e r w h = ground arith

-- After any attempts to load a key, good and bad, `Encrypt` and `Decrypt` do not fail because the
-- key does not fit the cipher: the test of `LoadKey` keeps every other length out.
pub load_all_fits :
    (ls : List Load) (g : Gcm) (random : Result Bytes Bytes) (r : Reader) (w : Writer)
    → let e = load_all ls new_aes_encryptor in
      ((encrypt g random e r w).1 ≢ err bad_cipher_key) × ((decrypt g e r w).1 ≢ err bad_cipher_key)
unfolding new_aes_encryptor
load_all_fits ls g random r w =
    let keyed = load_all-IsKeyed ls new_aes_encryptor (inl refl) in
    (encrypt_fits g random _ r w keyed, decrypt_fits g _ r w keyed)

load_key_ok :
    (key : Bytes) (e : AesEncryptor)
    → length key ≡ 32
    → load_key key e ≡ (record { key = key }, ok tt)
unfolding load_key
load_key_ok key e h = ground arith

-- A key of 32 bytes, written to a file and read from it by any encryptor, is loaded there.
pub load_key_from_file-save_key_to_file :
    (dir name fault : Bytes) (now : ℕ) (disk : Disk) (e d : AesEncryptor)
    → length e.key ≡ 32
    → let (disk', saved) = save_key_to_file none dir name now e disk in
      (saved ≡ ok tt) × (load_key_from_file dir name disk' fault d ≡ (e, ok tt))
unfolding save_key_to_file load_key_from_file
load_key_from_file-save_key_to_file dir name fault now disk e d h = ground (
  arith,
  find_file-write_file dir name dir name e.key now disk,
  same_place_refl dir name,
  load_key_ok e.key d h,
)

-- A key of 32 bytes, exported as base64 and imported by any encryptor, is loaded there.
pub import_key_from_base64-export_key_as_base64 :
    (b : Base64) (e d : AesEncryptor)
    → length e.key ≡ 32
    → (text : Bytes) × (export_key_as_base64 b e ≡ ok text)
      × (import_key_from_base64 b text d ≡ (e, ok tt))
unfolding export_key_as_base64 import_key_from_base64
import_key_from_base64-export_key_as_base64 b e d h =
    (b.encode e.key, ground arith, ground (arith, b.decode-encode e.key, load_key_ok e.key d h))

-- A load that fails leaves the key that was there.
pub load_error_unchanged :
    (l : Load) (e : AesEncryptor) {x : CryptoError} → (load l e).1 ≡ err x → (load l e).0 ≡ e
unfolding load load_key load_key_from_file import_key_from_base64
load_error_unchanged (bytes key) e h = ground arith
load_error_unchanged (file dir name disk fault) e h = ground arith
load_error_unchanged (base64 b text) e h = ground arith
