-- ===== src/Remote/Created.antt =====
-- When a remote storage is created.
use marmot_cli.Common.{
  ◌≡◌, ◌≢◌, ◌↔◌, ◌∙◌, refl, ap, sym, subst, true, Bool-cases, inl, inr, Option, some, none, arith,
  Bytes, Result, ok, err, is_empty,
}
use marmot_cli.S3.Settings.{
  S3Config, S3Provider, aws, make_provider, ConfigError, IsComplete, validate, get_provider,
  new_s3_provider, validate_iff, validate_idem,
}
use marmot_cli.Config.{Config, is_s3}
use marmot_cli.Remote.{Storage, provided, checked, new_storage_with_context}

new_s3_provider-IsComplete :
    (c : S3Config) → IsComplete c → (p : S3Provider) × (new_s3_provider none c ≡ ok p)
unfolding new_s3_provider
new_s3_provider-IsComplete c h =
    let valid : (validate c).1 ≡ ok tt = (validate_iff c).1 h in
    (make_provider (validate c).0, ground arith)

named : (c : S3Config) → IsComplete c → IsComplete (record c { provider = aws })
named c h = record {
  has_bucket = h.has_bucket;
  has_access_key = h.has_access_key;
  has_secret_key = h.has_secret_key;
  has_endpoint = inr (inr (inl refl));
}

get_provider-IsComplete :
    (c : S3Config) → IsComplete c → (p : S3Provider) × (get_provider none c ≡ ok p)
unfolding get_provider
get_provider-IsComplete c h = elim (Bool-cases (is_empty c.provider)) [
  | inl e ↦ rw e (new_s3_provider-IsComplete (record c { provider = aws }) (named c h))
  | inr e ↦ rw e (new_s3_provider-IsComplete c h)
]

-- What `Validate` accepts it accepts again with the defaults put in.
validated-IsComplete : (c : S3Config) → IsComplete c → IsComplete (validate c).0
validated-IsComplete c h =
    let valid = (validate_iff c).1 h in
    (validate_iff (validate c).0).0 (ap (λ r. r.1) (validate_idem c) ∙ valid)

get_provider-fault : (e : Bytes) (c : S3Config) {p : S3Provider} → get_provider (some e) c ≢ ok p
unfolding get_provider new_s3_provider
get_provider-fault e c h = ground arith

created :
    (c : Config)
    → is_s3 c ≡ true
    → IsComplete c.s3
    → (s : Storage) × ((new_storage_with_context none c).1 ≡ ok s)
unfolding new_storage_with_context
created c cloud h =
    let valid = (validate_iff c.s3).1 h in
    let (p, got) = get_provider-IsComplete (validate c.s3).0 (validated-IsComplete c.s3 h) in
    (
      record { provider = p; config = (validate c.s3).0 },
      rw (cloud, valid, got, checked, provided) refl,
    )

provided-eq-ok :
    (c : S3Config) (r : Result ConfigError S3Provider) {s : Storage}
    → provided c r ≡ ok s
    → (p : S3Provider) × (r ≡ ok p)
unfolding provided
provided-eq-ok c (err e) h = absurd (cc)
provided-eq-ok c (ok p) h = (p, refl)

checked-eq-ok :
    (fault : Option Bytes) (c : S3Config) (v : Result ConfigError (Unit {0})) {s : Storage}
    → checked fault c v ≡ ok s
    → (v ≡ ok tt) × (fault ≡ none)
unfolding checked
checked-eq-ok fault c (err e) h = absurd (cc)
checked-eq-ok none c (ok done) h = (refl, refl)
checked-eq-ok (some e) c (ok done) h =
    let (p, got) = provided-eq-ok c (get_provider (some e) c) h in
    absurd (get_provider-fault e c got)

created_only :
    (fault : Option Bytes) (c : Config) {s : Storage}
    → (new_storage_with_context fault c).1 ≡ ok s
    → (is_s3 c ≡ true) × IsComplete c.s3 × (fault ≡ none)
unfolding new_storage_with_context
created_only fault c h = elim (Bool-cases (is_s3 c)) [
  | inr e ↦ absurd (cc)
  | inl e ↦
      let through : checked fault (validate c.s3).0 (validate c.s3).1 ≡ ok _ = rw e at h in
      let (valid, works) = checked-eq-ok fault (validate c.s3).0 (validate c.s3).1 through in
      (e, (validate_iff c.s3).0 valid, works)
]

-- A remote storage is created exactly for a configuration of the storage type `s3` with a bucket and both
-- keys, and with an endpoint unless the provider is AWS, Wasabi or not named, where the AWS configuration loads;
-- the defaults that the validation puts in do not make the provider's own validation fail.
pub new_storage_with_context_iff :
    (fault : Option Bytes) (c : Config)
    → ((s : Storage) × ((new_storage_with_context fault c).1 ≡ ok s))
      ↔ ((is_s3 c ≡ true) × IsComplete c.s3 × (fault ≡ none))
new_storage_with_context_iff fault c = (
  λ h. created_only fault c h.1,
  λ h.
      let (cloud, complete, works) = h in
      subst (λ f. (s : Storage) × ((new_storage_with_context f c).1 ≡ ok s)) (sym works)
        (created c cloud complete),
)
