-- ===== src/Error/Final.antt =====
-- Functions whose errors are never retried with another target.
use calude_proxy.Base.{◌≡◌, refl, ap, Bool, true, false, Option, none, some, String, arith}
use calude_proxy.Error.{ProxyError, ErrorKind, Result, ok, err, new, ok_or, reject_if, ◌>>=◌}
use calude_proxy.Error.Invalid.{FailsInvalid}

pub record FailsFinal {ℓ} {A : Type ℓ} (r : Result A) : Type ℓ where
  pub at : (e : ProxyError) → r ≡ err e → e.is_retryable ≡ false

module _ {ℓ} {A : Type ℓ} where
  pub FailsFinal-ok : (a : A) → FailsFinal (ok a)
  FailsFinal-ok a = record { at = λ e h. cc }

  pub FailsFinal-err :
      (kind : ErrorKind) (message : String) → FailsFinal {A = A} (err (new kind message))
  FailsFinal-err kind message = record { at = λ e h. ground arith }

  pub FailsFinal-ok_or :
      (o : Option A) (kind : ErrorKind) (message : String) → FailsFinal (ok_or o (new kind message))
  FailsFinal-ok_or none kind message = FailsFinal-err kind message
  FailsFinal-ok_or (some a) kind message = FailsFinal-ok a

  pub FailsInvalid-FailsFinal : (r : Result A) → FailsInvalid r → FailsFinal r
  FailsInvalid-FailsFinal r f = record {
    at = λ e h. ap (λ (x : ProxyError). x.is_retryable) (f.at e h);
  }

pub FailsFinal-reject_if :
    (b : Bool) (kind : ErrorKind) (message : String) → FailsFinal (reject_if b (new kind message))
FailsFinal-reject_if true kind message = FailsFinal-err kind message
FailsFinal-reject_if false kind message = FailsFinal-ok tt

pub FailsFinal-bind {ℓ κ} :
    {A : Type ℓ} {B : Type κ} (m : Result A) (f : A → Result B)
    → FailsFinal m
    → ((a : A) → FailsFinal (f a))
    → FailsFinal (m >>= f)
FailsFinal-bind (ok a) f hm hf = hf a
FailsFinal-bind {A} {B} (err e) f hm hf = record {
  at = λ e' h. let same : e ≡ e' = cc h in rw (← same) (hm.at e refl);
}
