-- ===== src/Status.antt =====
-- src/lumodb/status.h: the status that every operation returns.
use Prim.Native.String.{String}
use lumodb.Base.{Bool, true, false}

pub data StatusCode : Type 0 where
  not_found invalid_argument io_error corruption not_open : StatusCode

-- What C++ leaves undefined, or what never returns: reading through an unmapped index or behind the
-- end of a vector, and a loop whose condition stays true.
pub data Fault : Type 0 where
  null_mapping endless_loop out_of_bounds : Fault

-- `Status` together with the value that an operation hands back through its reference arguments.
-- `ok` is `kOk`; `err` carries the code and the message.
pub data Result {ℓ} (A : Type ℓ) : Type ℓ where
  ok : A → Result A
  err : StatusCode → String → Result A
  fault : Fault → Result A

-- `if (!status) { return status; }`
infixl 5 ◌>>=◌ ◌>>◌
abbrev pub ◌>>=◌ {ℓ κ} : {A : Type ℓ} {B : Type κ} → Result A → (A → Result B) → Result B
ok a >>= f = f a
err c m >>= f = err c m
fault x >>= f = fault x

abbrev pub ◌>>◌ {ℓ} : {B : Type ℓ} → Result (Unit {0}) → Result B → Result B
m >> k = m >>= λ _. k

-- `if (!condition) { return Status(code, message); }`
abbrev pub require : Bool → StatusCode → String → Result (Unit {0})
require true c m = ok tt
require false c m = err c m

-- What a method that changes the object returns: the object after it, and its status.
abbrev pub Act : Type 0 → Type 0
Act S = S × Result (Unit {0})

-- `status = ...; if (!status) { return status; }` in such a method.
abbrev pub on_ok : {S : Type 0} → Act S → (S → Act S) → Act S
on_ok (s, ok u) f = f s
on_ok (s, err c m) f = (s, err c m)
on_ok (s, fault x) f = (s, fault x)
