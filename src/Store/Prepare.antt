-- ===== src/Store/Prepare.antt =====
-- What a swap has found out before it writes, and that what it writes reads back
-- (services/storage.rs).
use lam.Prelude.{
  ℕ, suc, ◌^◌, ◌≤◌, ◌<◌, ◌≡◌, refl, sym, ◌∙◌, ap, inl, inr, Bool, true, false, Option, some, List,
  [], ◌∷◌, ◌++◌, length, arith, leb→le, leb, Option-cases,
}
use lam.Errors.{AppError, Result, ok, guard, passed_on, ◌>>◌}
use lam.Store.{
  AtomicWriteFault, StoreSnapshot, Codec, IsFaithful, Disk, VersionedFileStore,
  InstallationLockGuard, ReadIo, read_unlocked, prepare, ensure_guard, ensure_revision,
  next_revision, serialize_envelope, read_bounded, reject_symlink, parse_envelope, ensure_schema,
  validate_private_file,
}
use lam.Store.Write.{private_file, committed}

-- every call of a read succeeds
abbrev pub calm : ReadIo
calm = record { link_ok = true; open_ok = true; metadata_ok = true; read_ok = true }

module _ {T : Type 0} (codec : Codec T) (cfg : VersionedFileStore) where
  -- what the write rests on when `prepare` returns `next` and `body`
  pub record Prepared (io : ReadIo) (expected : ℕ) (value : T) (d : Disk) (next : ℕ) (body : List ℕ)
      : Type 0 where
    pub current : StoreSnapshot T
    pub current_read : read_unlocked codec cfg io d ≡ ok current
    pub current_expected : current.revision ≡ expected
    pub next_suc : next ≡ suc expected
    pub next_fits : next < 2 ^ 64
    pub encoded : List ℕ
    pub encoded_lem : codec.encode cfg.schema_version next value ≡ some encoded
    pub body_lem : body ≡ encoded ++ 10 ∷ []
    pub body_fits : length body ≤ cfg.max_bytes

  guard-ok :
      (b : Bool) (e : AppError) {A : Type 0} (k : Result A) {a : A}
      → (guard b e >> k) ≡ ok a
      → (b ≡ true) × (k ≡ ok a)
  guard-ok true e k h = (refl, h)
  guard-ok false e k h = ground arith

  serialized :
      (revision : ℕ) (value : T) (fault : Option AtomicWriteFault) (body : List ℕ)
      → serialize_envelope codec cfg revision value fault ≡ ok body
      → (b : List ℕ) × (codec.encode cfg.schema_version revision value ≡ some b)
        × (body ≡ b ++ 10 ∷ [])
  unfolding serialize_envelope
  serialized revision value fault body h =
      elim (Option-cases (codec.encode cfg.schema_version revision value)) [
        | inl e ↦ ground arith
        | inr p ↦ (p.0, p.1, ground arith)
      ]

  next_revision-ok : (r next : ℕ) → next_revision r ≡ ok next → (next ≡ suc r) × (next < 2 ^ 64)
  unfolding next_revision
  next_revision-ok r next h = ground arith

  ensure_revision-ok : (e a : ℕ) → ensure_revision e a ≡ ok tt → a ≡ e
  unfolding ensure_revision
  ensure_revision-ok e a h = ground arith

  module _ (io : ReadIo) (expected : ℕ) (value : T) (fault : Option AtomicWriteFault)
      (d : Disk) where
    assemble :
        (current : StoreSnapshot T) (n : ℕ) (b : List ℕ) (next : ℕ) (body : List ℕ)
        → read_unlocked codec cfg io d ≡ ok current
        → ensure_revision expected current.revision ≡ ok tt
        → next_revision current.revision ≡ ok n
        → serialize_envelope codec cfg n value fault ≡ ok b
        → leb (length b) cfg.max_bytes ≡ true
        → ◌≡◌ {A = Result (ℕ × List ℕ)} (ok (n, b)) (ok (next, body))
        → Prepared io expected value d next body
    assemble current n b next body read agree step ser fits same =
        let e1 : n ≡ next = ground arith in
        let e2 : b ≡ body = ground arith in
        let same_revision = ensure_revision-ok expected current.revision agree in
        let (next_suc, next_fits) = next_revision-ok current.revision n step in
        let (encoded, is_encoded, is_body) = serialized n value fault b ser in
        record {
          current = current;
          current_read = read;
          current_expected = same_revision;
          next_suc = sym e1 ∙ next_suc ∙ ap suc same_revision;
          next_fits = rw (← e1) next_fits;
          encoded = encoded;
          encoded_lem = rw (← e1) is_encoded;
          body_lem = sym e2 ∙ is_body;
          body_fits = rw (← e2) (leb→le (length b) cfg.max_bytes fits);
        }

    pub prepare-Prepared :
        (held : InstallationLockGuard) (next : ℕ) (body : List ℕ)
        → prepare codec cfg held io expected value fault d ≡ ok (next, body)
        → Prepared io expected value d next body
    unfolding prepare
    prepare-Prepared held next body h =
        let (_, _, h1) = passed_on _ (ensure_guard cfg held) _ h in
        let (current, read, h2) = passed_on _ (read_unlocked codec cfg io d) _ h1 in
        let (_, agree, h3) = passed_on _ (ensure_revision expected current.revision) _ h2 in
        let (n, step, h4) = passed_on _ (next_revision current.revision) _ h3 in
        let (b, ser, h5) = passed_on _ (serialize_envelope codec cfg n value fault) _ h4 in
        let (fits, same) = guard-ok (leb (length b) cfg.max_bytes) _ (ok (n, b)) h5 in
        assemble current n b next body read agree step ser fits same

  -- a private file with the bytes of an encoded value reads as that value
  pub read-private_file :
      IsFaithful codec
      → (d : Disk) (revision : ℕ) (value : T) (b : List ℕ)
      → codec.encode cfg.schema_version revision value ≡ some b
      → length (b ++ 10 ∷ []) ≤ cfg.max_bytes
      → d.store ≡ some (private_file cfg.euid (b ++ 10 ∷ []))
      → read_unlocked codec cfg calm d ≡ ok (committed codec cfg revision value)
  unfolding read_unlocked reject_symlink read_bounded validate_private_file parse_envelope
      ensure_schema committed
  read-private_file faithful d revision value b e fits h = ground (
    arith,
    faithful.decode-encode cfg.schema_version revision value b e,
    faithful.metadata-encode cfg.schema_version revision value b e,
  )
