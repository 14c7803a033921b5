-- ===== src/Handler.antt =====
-- src/handler.rs. A `?` that fails is `failed`, an `unwrap` on nothing is `crashed`.
pub mod Headers
pub mod Normal
pub mod Build
pub mod Proxy
pub mod Inner
pub mod Stream
pub mod Log
pub mod Fails
pub mod Trace
pub mod Cancel
mod Tests
use http_nu.Common.{Text, ◌≡◌, ◌≢◌, refl, arith}

-- Which of the calls of other crates refused its argument.
pub data Failure : Type 0 where
  invalid_name : Text → Failure
  invalid_value : Text → Failure
  invalid_uri : Text → Failure
  compression : Failure
  no_answer : Failure
  -- A file that could not be read to its end.
  unread : Failure

pub data HttpResult (A : Type 0) : Type 0 where
  ok : A → HttpResult A
  failed : Failure → HttpResult A
  crashed : HttpResult A

infixl 5 ◌>>=◌
abbrev pub ◌>>=◌ : {A B : Type 0} → HttpResult A → (A → HttpResult B) → HttpResult B
ok a >>= f = f a
failed e >>= f = failed e
crashed >>= f = crashed

-- Inversion of a step that succeeded.
pub bind-ok :
    {A B : Type 0} (m : HttpResult A) (f : A → HttpResult B) {b : B}
    → (m >>= f) ≡ ok b
    → (a : A) × (m ≡ ok a) × (f a ≡ ok b)
bind-ok (ok a) f h = (a, refl, h)
bind-ok (failed e) f h = absurd (ground arith)
bind-ok crashed f h = absurd (ground arith)

-- A step that panics where neither of its parts does is none.
pub bind-ne-crashed :
    {A B : Type 0} (m : HttpResult A) (f : A → HttpResult B)
    → m ≢ crashed
    → ((a : A) → f a ≢ crashed)
    → (m >>= f) ≢ crashed
bind-ne-crashed (ok a) f h k = k a
bind-ne-crashed (failed e) f h k = λ q. absurd (ground arith)
bind-ne-crashed crashed f h k = λ q. h refl
