-- ===== src/Auth/Keys.antt =====
-- Who is let in: the holders of configured keys.
pub mod Examples
use mathlib.Core.List.{Mem, mem-cons_self, mem-cons_of_mem}
use calude_proxy.Base.{
  ◌≤◌, String, Bool, true, Option, none, some, List, [], ◌∷◌, ltb, byte_len, find?, ◌≡◌, arith,
  Bool-cases, inl, inr,
}
use calude_proxy.Error.{ProxyError, Result, ok, ok_or, >>=-eq-ok}
use calude_proxy.Config.{ClientConfig, SecretRef}
use calude_proxy.Auth.{
  ClientIdentity, Headers, extract_key, registry, register, identity, authenticate,
}

ok_or-eq-ok {ℓ} :
    {A : Type ℓ} (o : Option A) (e : ProxyError) {a : A} → ok_or o e ≡ ok a → o ≡ some a
ok_or-eq-ok none e h = cc
ok_or-eq-ok (some a) e h = cc

module _ {ℓ} {Digest : Type ℓ} (sha256 : String → Digest)
    (resolve : SecretRef → Result String) where
  register_eq-ok :
      (config : ClientConfig) {client : ClientIdentity Digest}
      → register sha256 resolve config ≡ ok client
      → (key : String) × (resolve config.key ≡ ok key)
        × (24 ≤ byte_len key)
        × (client ≡ identity sha256 config key)
  unfolding register
  register_eq-ok config e =
      let (key, e1, e2) = >>=-eq-ok (resolve config.key) _ e in
      elim (Bool-cases (ltb (byte_len key) 24)) [
        | inl short ↦ let refused = rw short at e2 in cc
        | inr long ↦ (key, e1, ground arith, let made = rw long at e2 in cc)
      ]

  registry-cons :
      (config : ClientConfig) (rest : List ClientConfig) {clients : List (ClientIdentity Digest)}
      → registry sha256 resolve (config ∷ rest) ≡ ok clients
      → (client : ClientIdentity Digest) × (others : List (ClientIdentity Digest)) × (register
            sha256 resolve config
          ≡ ok client)
        × (registry sha256 resolve rest ≡ ok others)
        × (clients ≡ client ∷ others)
  unfolding registry
  registry-cons config rest r =
      let (client, e1, r1) = >>=-eq-ok (register sha256 resolve config) _ r in
      let (others, e2, r2) = >>=-eq-ok (registry sha256 resolve rest) _ r1 in
      (client, others, e1, e2, cc r2)

  Registered : (ClientIdentity Digest → Bool) → List ClientConfig → ClientIdentity Digest → Type ℓ
  Registered p configs c =
      (config : ClientConfig) × Mem config configs
      × (register sha256 resolve config ≡ ok c)
      × (p c ≡ true)

  find-Registered :
      (p : ClientIdentity Digest → Bool) (configs : List ClientConfig)
      {clients : List (ClientIdentity Digest)} (c : ClientIdentity Digest)
      → registry sha256 resolve configs ≡ ok clients
      → find? p clients ≡ some c
      → Registered p configs c
  unfolding Registered
  find-Registered p [] {clients = []} c r f = cc
  find-Registered p [] {clients = d ∷ clients} c r f = unfold registry in cc
  find-Registered p (config ∷ rest) c r f =
      let (client, others, e1, e2, e3) = registry-cons config rest r in
      let found = rw e3 at f in
      elim (Bool-cases (p client)) [
        | inl hit ↦
            let same : client ≡ c = ground arith in
            (config, mem-cons_self, rw same at e1, rw same at hit)
        | inr miss ↦
            let (d, m, e, h) = find-Registered p rest c e2 (rw miss at found) in
            (d, mem-cons_of_mem config m, e, h)
      ]

  -- A registry that is built lets in only the holders of configured keys: if a request is
  -- authenticated, it presents a key under one of the two headers whose hash `ct_eq` accepts for
  -- the key of a configured client; that client is the one it is taken for, and its own key is
  -- resolved and at least 24 bytes long.
  pub registry-authenticate :
      (ct_eq : Digest → Digest → Bool) (configs : List ClientConfig)
      {clients : List (ClientIdentity Digest)} (headers : Headers) (c : ClientIdentity Digest)
      → registry sha256 resolve configs ≡ ok clients
      → authenticate sha256 ct_eq clients headers ≡ ok c
      → (presented : String) × (config : ClientConfig) × (key : String) × (extract_key headers
          ≡ some presented)
        × Mem config configs
        × (resolve config.key ≡ ok key)
        × (24 ≤ byte_len key)
        × (c ≡ identity sha256 config key)
        × (ct_eq (sha256 key) (sha256 presented) ≡ true)
  unfolding authenticate Registered identity
  registry-authenticate ct_eq configs {clients} headers c r a =
      let (presented, e1, a1) = >>=-eq-ok (ok_or (extract_key headers) _) _ a in
      let (config, m, reg, eq) =
        find-Registered (λ d. ct_eq d.key_hash (sha256 presented)) configs c r
          (ok_or-eq-ok _ _ a1) in
      let (key, res, long, same) = register_eq-ok config reg in
      (presented, config, key, ok_or-eq-ok _ _ e1, m, res, long, same, rw same at eq)
