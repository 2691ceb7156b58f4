-- ===== src/Crypto/Examples.antt =====
-- A toy cipher and a toy base64 that meet the interfaces, and the theorems at concrete keys.
use mathlib.Core.List.{reverse, reverse-reverse}
use marmot_cli.Common.{
  ◌≡◌, ◌≢◌, refl, [], ◌∷◌, ◌++◌, some, Bytes, codes, ok, err, length, ap, ◌∙◌, drop, drop-append,
}
use marmot_cli.Streams.{reader, fresh, read_full}
use marmot_cli.Crypto.{
  Gcm, bad_cipher_key, new_aes_encryptor, bad_key_length, read_nonce_failed, AesEncryptor, load_key,
  encrypt, decrypt,
}
use marmot_cli.Crypto.Keys.{bytes, load_all, load_all_fits}
use marmot_cli.Crypto.RoundTrip.{decrypt-encrypt}

-- The sealed text is the text backwards behind the nonce.
abbrev pub backwards : Gcm
backwards = record {
  seal = λ key nonce text. nonce ++ reverse text;
  open_sealed = λ key nonce sealed. some (reverse (drop (length nonce) sealed));
  open-seal = λ key nonce text.
      ap some (ap reverse (drop-append nonce (reverse text)) ∙ reverse-reverse text);
}

abbrev pub key_32 : Bytes
key_32 = codes "0123456789abcdef0123456789abcdef"

abbrev pub keyed : AesEncryptor
keyed = record { key = key_32 }

abbrev pub nonce_12 : Bytes
nonce_12 = codes "nonce-nonce-"

short_key : load_key (codes "abc") keyed ≡ (keyed, err (bad_key_length 3))
unfolding load_key
short_key = refl

short_text :
    (decrypt backwards keyed (reader (codes "abc")) fresh).1
    ≡ err (read_nonce_failed (codes "unexpected EOF"))
unfolding decrypt read_full
short_text = refl

decrypt-encrypt_example :
    let (w, sent) = encrypt backwards (ok nonce_12) keyed (reader (codes "dump")) fresh in
    (sent ≡ ok tt)
    × (decrypt backwards keyed (reader w.written) fresh
        ≡ (record { written = codes "dump"; faults = [] }, ok tt))
decrypt-encrypt_example = decrypt-encrypt backwards nonce_12 (codes "dump") keyed refl refl

load_all_fits_example :
    let e = load_all (bytes key_32 ∷ bytes (codes "no") ∷ []) new_aes_encryptor in
    ((encrypt backwards (ok nonce_12) e (reader []) fresh).1 ≢ err bad_cipher_key)
    × ((decrypt backwards e (reader []) fresh).1 ≢ err bad_cipher_key)
load_all_fits_example =
    load_all_fits (bytes key_32 ∷ bytes (codes "no") ∷ []) backwards (ok nonce_12) (reader []) fresh
