-- ===== src/Shared/Equality.antt =====
-- Equality that the program derives (`PartialEq`), as an instance, and maps as functions of keys.
use Prim.Native.Nat.{ℕ}
use Prim.Native.String.{String}
use mathlib.Core.Path.{◌≡◌, refl}
use mathlib.Core.Bool.{Bool, true, false}
use native.Mathlib.Omega.{arith}
use native.Mathlib.Decide.{ℕ_discrete}
use text.Mathlib.Text.{◌==◌ as str_eq}
use text.Mathlib.TextEquality.{eq_iff}
use light_stream.Shared.Tests.{if◌then◌else◌}

pub record Eq {ℓ} (A : Type ℓ) : Type ℓ where
  pub decide_eq : Discrete A

infix 50 ◌==◌
abbrev pub ◌==◌ {ℓ} : {A : Type ℓ} ⦃e : Eq A⦄ → A → A → Bool
◌==◌ ⦃e⦄ a b = elim (e.decide_eq a b) [ yes p ↦ true | no n ↦ false ]

instance abbrev pub nat_eq : Eq ℕ
nat_eq = record { decide_eq = ℕ_discrete }

decide_string : (b : Bool) (s t : String) → str_eq s t ≡ b → Dec (s ≡ t)
decide_string true s t h = yes ((eq_iff s t).0 h)
decide_string false s t h = no (λ e. ground (arith, (eq_iff s t).1 e))

unfoldable pub String-discrete : Discrete String
unfolding decide_string
String-discrete s t = decide_string (str_eq s t) s t refl

instance abbrev pub string_eq : Eq String
string_eq = record { decide_eq = String-discrete }

module _ {ℓ κ} {K : Type ℓ} {V : Type κ} ⦃e : Eq K⦄ where
  abbrev pub set_at : (K → V) → K → V → K → V
  set_at f k v j = if j == k then v else f j
