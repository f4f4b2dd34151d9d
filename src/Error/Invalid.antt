-- ===== src/Error/Invalid.antt =====
-- Functions whose only errors are `invalid_request` errors, with no retry: they end in status 400.
use calude_proxy.Base.{
  ◌≡◌, refl, Bool, true, false, Option, none, some, String, if◌then◌else◌, arith,
}
use calude_proxy.Error.{ProxyError, Result, ok, err, invalid, ok_or, reject_if, ◌>>=◌}

-- An error of `r` is one that `ProxyError::invalid` makes.
pub record FailsInvalid {ℓ} {A : Type ℓ} (r : Result A) : Type ℓ where
  pub at : (e : ProxyError) → r ≡ err e → e ≡ invalid e.message

module _ {ℓ} {A : Type ℓ} where
  pub FailsInvalid-ok : (a : A) → FailsInvalid (ok a)
  FailsInvalid-ok a = record { at = λ e h. cc }

  pub FailsInvalid-err : (message : String) → FailsInvalid {A = A} (err (invalid message))
  FailsInvalid-err message = record { at = λ e h. ground arith }

  pub FailsInvalid-ok_or :
      (o : Option A) (message : String) → FailsInvalid (ok_or o (invalid message))
  FailsInvalid-ok_or none message = FailsInvalid-err message
  FailsInvalid-ok_or (some a) message = FailsInvalid-ok a

  pub FailsInvalid-if :
      (b : Bool) (r s : Result A)
      → FailsInvalid r
      → FailsInvalid s
      → FailsInvalid (if b then r else s)
  FailsInvalid-if true r s f g = f
  FailsInvalid-if false r s f g = g

pub FailsInvalid-reject_if :
    (b : Bool) (message : String) → FailsInvalid (reject_if b (invalid message))
FailsInvalid-reject_if true message = FailsInvalid-err message
FailsInvalid-reject_if false message = FailsInvalid-ok tt

pub FailsInvalid-bind {ℓ κ} :
    {A : Type ℓ} {B : Type κ} (m : Result A) (f : A → Result B)
    → FailsInvalid m
    → ((a : A) → FailsInvalid (f a))
    → FailsInvalid (m >>= f)
FailsInvalid-bind (ok a) f hm hf = hf a
FailsInvalid-bind {A} {B} (err e) f hm hf = record {
  at = λ e' h. let same : e ≡ e' = cc h in rw (← same) (hm.at e refl);
}

pub ruleset fails_invalid = (
  FailsInvalid-ok, FailsInvalid-err, FailsInvalid-ok_or, FailsInvalid-if, FailsInvalid-reject_if,
  FailsInvalid-bind,
)
