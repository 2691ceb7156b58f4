-- ===== src/Crypto/RoundTrip.antt =====
-- What `Decrypt` makes of the output of `Encrypt`, and what a failed call leaves in the output.
use marmot_cli.Common.{
  ◌≡◌, refl, ap, ◌∙◌, List, Option, [], ◌++◌, arith, Bytes, Result, ok, err, length, subst,
  length-append, take-append, drop-append,
}
use marmot_cli.Streams.{Reader, Writer, read_all, read_full, write, fresh, reader}
use marmot_cli.Streams.Laws.{write-write_ok}
use marmot_cli.Crypto.{
  Gcm, CryptoError, AesEncryptor, nonce_size, encrypt, decrypted, decrypt, with_value, then_write,
  write_plaintext_failed, key_ready, wrap, nonce_failed, write_nonce_failed, write_sealed_failed,
}

encrypt_ok :
    (g : Gcm) (nonce text : Bytes) (e : AesEncryptor)
    → length e.key ≡ 32
    → encrypt g (ok nonce) e (reader text) fresh
      ≡ (record { written = nonce ++ g.seal e.key nonce text; faults = [] }, ok tt)
unfolding encrypt read_all write
encrypt_ok g nonce text e h = ground arith

read_full_exact :
    (nonce rest : Bytes)
    → read_full (length nonce) (reader (nonce ++ rest)) ≡ ok (nonce, reader rest)
unfolding read_full
read_full_exact nonce rest =
    ground (arith, take-append nonce rest, drop-append nonce rest, length-append nonce rest)

read_full-append :
    (nonce rest : Bytes)
    → length nonce ≡ nonce_size
    → read_full nonce_size (reader (nonce ++ rest)) ≡ ok (nonce, reader rest)
read_full-append nonce rest h =
    subst (λ n. read_full n (reader (nonce ++ rest)) ≡ ok (nonce, reader rest)) h
      (read_full_exact nonce rest)

decrypted_ok :
    (g : Gcm) (nonce text : Bytes) (e : AesEncryptor)
    → length e.key ≡ 32
    → length nonce ≡ nonce_size
    → decrypted g e (reader (nonce ++ g.seal e.key nonce text)) ≡ ok text
unfolding decrypted read_all
decrypted_ok g nonce text e h n =
    ground (arith, read_full-append nonce (g.seal e.key nonce text) n, g.open-seal e.key nonce text)

-- With a key of 32 bytes and any nonce of the cipher's size, `Encrypt` succeeds, and `Decrypt` under
-- the same key writes the plaintext back.
pub decrypt-encrypt :
    (g : Gcm) (nonce text : Bytes) (e : AesEncryptor)
    → length e.key ≡ 32
    → length nonce ≡ nonce_size
    → let (w, sent) = encrypt g (ok nonce) e (reader text) fresh in
      (sent ≡ ok tt)
      × (decrypt g e (reader w.written) fresh ≡ (record { written = text; faults = [] }, ok tt))
unfolding decrypt write
decrypt-encrypt g nonce text e h n =
    rw (encrypt_ok g nonce text e h) (refl, ground (arith, decrypted_ok g nonce text e h n))

with_value_ok :
    (w : Writer) (r : Result CryptoError Bytes) (k : Bytes → Writer × Result CryptoError (Unit {0}))
    → (with_value w r k).1 ≡ ok tt
    → (a : Bytes) × (r ≡ ok a) × (with_value w r k ≡ k a)
with_value_ok w (ok a) k h = (a, refl, refl)
with_value_ok w (err x) k h = cc

then_write_ok :
    (f : Bytes → CryptoError) (p : Writer × Result Bytes (Unit {0}))
    (k : Writer → Writer × Result CryptoError (Unit {0}))
    → (then_write f p k).1 ≡ ok tt
    → (p.1 ≡ ok tt) × (then_write f p k ≡ k p.0)
then_write_ok f (w, ok done) k h = (refl, refl)
then_write_ok f (w, err m) k h = cc

-- The tail of `Encrypt`, where the key is ready.
send_sealed : Gcm → Bytes → Bytes → Bytes → Writer → Writer × Result CryptoError (Unit {0})
send_sealed g key text nonce w =
    then_write write_nonce_failed (write w nonce)
      λ w'. then_write write_sealed_failed (write w' (g.seal key nonce text)) λ w''. (w'', ok tt)

send_sealed_ok :
    (g : Gcm) (key text nonce : Bytes) (w : Writer)
    → (send_sealed g key text nonce w).1 ≡ ok tt
    → (send_sealed g key text nonce w).0.written ≡ w.written ++ (nonce ++ g.seal key nonce text)
unfolding send_sealed
send_sealed_ok g key text nonce w h =
    let (one, first) =
      then_write_ok write_nonce_failed (write w nonce)
        (λ w'.
          then_write write_sealed_failed (write w' (g.seal key nonce text)) λ w''. (w'', ok tt))
        h in
    let (two, last) =
      then_write_ok write_sealed_failed (write (write w nonce).0 (g.seal key nonce text))
        (λ w''. (w'', ok tt)) (rw first at h) in
    rw (first, last) (write-write_ok w nonce (g.seal key nonce text) one two)

key_ready_own : (e : AesEncryptor) {key : Bytes} → key_ready e ≡ ok key → key ≡ e.key
unfolding key_ready
key_ready_own e h = ground arith

wrap_ok :
    (f : Bytes → CryptoError) (r : Result Bytes Bytes) {a : Bytes} → wrap f r ≡ ok a → r ≡ ok a
wrap_ok f (ok b) h = cc
wrap_ok f (err m) h = cc

-- Whatever the length of the key and however the writes may fail: where `Encrypt` succeeds, it wrote
-- the nonce and the sealed text.
pub encrypt_written :
    (g : Gcm) (random : Result Bytes Bytes) (text : Bytes) (e : AesEncryptor)
    (faults : List (Option Bytes))
    → (encrypt g random e (reader text) (record { written = []; faults = faults })).1 ≡ ok tt
    → (nonce : Bytes) × (random ≡ ok nonce)
      × ((encrypt g random e (reader text) (record { written = []; faults = faults })).0.written
          ≡ nonce ++ g.seal e.key nonce text)
      × (key_ready e ≡ ok e.key)
unfolding encrypt read_all send_sealed
encrypt_written g random text e faults h =
    let w : Writer = record { written = []; faults = faults } in
    let (key, ready, first) =
      with_value_ok w (key_ready e)
        (λ key. with_value w (wrap nonce_failed random) λ nonce. send_sealed g key text nonce w)
        h in
    let (nonce, drawn, second) =
      with_value_ok w (wrap nonce_failed random) (λ nonce. send_sealed g key text nonce w)
        (rw first at h) in
    let own = key_ready_own e ready in
    let sent = send_sealed_ok g key text nonce w (rw (first, second) at h) in
    (
      nonce,
      wrap_ok nonce_failed random drawn,
      ap (λ p. p.0.written) (first ∙ second) ∙ sent ∙ ap (λ k. nonce ++ g.seal k nonce text) own,
      ready ∙ ap ok own,
    )

-- Where `Encrypt` succeeded and its nonce has the cipher's size, `Decrypt` arrives at the plaintext.
pub decrypt-encrypt_any :
    (g : Gcm) (random : Result Bytes Bytes) (text : Bytes) (e : AesEncryptor)
    (faults : List (Option Bytes))
    → ((nonce : Bytes) → random ≡ ok nonce → length nonce ≡ nonce_size)
    → let (w, sent) = encrypt g random e (reader text) (record { written = []; faults = faults }) in
      sent ≡ ok tt
      → decrypt g e (reader w.written) fresh ≡ (record { written = text; faults = [] }, ok tt)
unfolding decrypt decrypted read_all write
decrypt-encrypt_any g random text e faults sized h =
    let (nonce, drawn, written, ready) = encrypt_written g random text e faults h in
    rw written (
      ground (
        arith,
        ready,
        read_full-append nonce (g.seal e.key nonce text) (sized nonce drawn),
        g.open-seal e.key nonce text,
      ))

write_last_error :
    (w : Writer) (r : Result CryptoError Bytes) {x : CryptoError}
    → (with_value w r λ text. then_write write_plaintext_failed (write w text) λ w'. (w', ok tt)).1
      ≡ err x
    → (with_value w r
        λ text. then_write write_plaintext_failed (write w text) λ w'. (w', ok tt)).0.written
      ≡ w.written
unfolding write
write_last_error w (ok text) h = ground arith
write_last_error w (err m) h = refl

-- `Decrypt` writes the whole plaintext or nothing: where it returns an error, the output is as it
-- was. So it is for a text that is too short, or that the cipher does not open.
pub decrypt_error_unwritten :
    (g : Gcm) (e : AesEncryptor) (r : Reader) (w : Writer) {x : CryptoError}
    → (decrypt g e r w).1 ≡ err x
    → (decrypt g e r w).0.written ≡ w.written
unfolding decrypt
decrypt_error_unwritten g e r w h = write_last_error w (decrypted g e r) h
