-- ===== src/Base/Always.antt =====
-- What holds of the result of a fallible computation whenever there is one.

use mathlib.Core.Path.{◌≡◌, subst}
use mathlib.Core.Bool.{Bool, true, false}
use mathlib.Core.Option.{Option, none, some}
use pine_os.Base.Tests.{if◌then◌else◌}
use pine_os.Base.Bind.{◌>>=◌}

module _ {A : Type 0} (P : A → Type 0) where
  abbrev pub Always : Option A → Type 0
  Always none = Unit
  Always (some a) = P a

  pub Always-if : (b : Bool) (x y : Option A) → Always x → Always y → Always (if b then x else y)
  Always-if true x y p q = p
  Always-if false x y p q = q

  pub Always-bind :
      {B : Type 0} (m : Option B) (k : B → Option A) → ((b : B) → Always (k b)) → Always (m >>= k)
  Always-bind none k h = tt
  Always-bind (some b) k h = h b

  pub of_Always : (o : Option A) (a : A) → Always o → o ≡ some a → P a
  of_Always none a h e = absurd (cc e)
  of_Always (some b) a h e = subst Always e h
