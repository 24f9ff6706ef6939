-- ===== src/Common/Options.antt =====
-- Options: the value is determined.
use mathlib.Core.Path.{◌≡◌, ap}
use mathlib.Core.Option.{some, get_or}

pub some-injective {ℓ} : {A : Type ℓ} {a b : A} → some a ≡ some b → a ≡ b
some-injective {a = a} e = ap (λ o. get_or o a) e
