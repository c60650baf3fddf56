-- ===== src/Base/Value.antt =====
-- The values that a YAML file holds, and the decimal print of a number.
pub mod Decimal
pub mod Splits
use package.cluster_genesis.Base.Tests.{Eq, nat_eq, ltb, nat_beq, nat_beq_iff}
use package.cluster_genesis.Base.Texts.{Text, text_beq, text_beq_iff, text_eq, codes}
use Prim.Native.Nat.{ℕ, zero, suc, ◌+◌, ◌/◌, ◌%◌}
use mathlib.Core.Path.{◌≡◌, refl, ap}
use mathlib.Core.Logic.{◌↔◌}
use mathlib.Core.Bool.{Bool, true, false}
use mathlib.Core.List.{[], ◌∷◌}

mutual
  pub data Value : Type 0 where
    null : Value
    bool : Bool → Value
    int : ℕ → Value
    str : Text → Value
    list : Values → Value
    dict : Fields → Value

  pub data Values : Type 0 where
    nil : Values
    cons : Value → Values → Values

  pub data Fields : Type 0 where
    end : Fields
    field : Text → Value → Fields → Fields

unfoldable pub show_digits : ℕ → ℕ → Text → Text
show_digits zero n out = out
show_digits (suc fuel) n out = elim (ltb n 10) [
  | true ↦ (48 + n) ∷ out
  | false ↦ show_digits fuel (n / 10) ((48 + n % 10) ∷ out)
]

-- `str(n)`; a number has at most as many digits as its value plus one.
unfoldable pub show_nat : ℕ → Text
unfolding show_digits
show_nat n = show_digits (suc n) n []

show_1048 : show_nat 1048 ≡ codes "1048"
unfolding show_nat
show_1048 = refl

-- A switch port as the configuration gives it: a number, or a name such as `1/12`.
pub data Port : Type 0 where
  num : ℕ → Port
  name : Text → Port

-- `str(port)`
unfoldable pub port_str : Port → Text
unfolding show_nat
port_str (num n) = show_nat n
port_str (name s) = s

abbrev pub port_beq : Port → Port → Bool
port_beq (num a) (num b) = nat_beq a b
port_beq (num a) (name t) = false
port_beq (name s) (num b) = false
port_beq (name s) (name t) = text_beq s t

pub port_beq_iff : (p q : Port) → (port_beq p q ≡ true) ↔ (p ≡ q)
port_beq_iff (num a) (num b) = (λ h. ap num ((nat_beq_iff a b).0 h), λ h. (nat_beq_iff a b).1 (cc))
port_beq_iff (num a) (name t) = (λ h. cc, λ h. cc)
port_beq_iff (name s) (num b) = (λ h. cc, λ h. cc)
port_beq_iff (name s) (name t) =
    (λ h. ap name ((text_beq_iff s t).0 h), λ h. (text_beq_iff s t).1 (cc))

instance abbrev pub port_eq : Eq Port
port_eq = record { beq = port_beq; beq_iff = port_beq_iff }
