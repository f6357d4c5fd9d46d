-- ===== src/TypeHelpers/Compare.antt =====
-- `compare_type` of RS485/tl/native_client/jni/utils/TypeHelpers.h.
use qf.Prelude.{ℕ, ◌≡◌, ◌↔◌, refl, Bool, true, false, if◌then◌else◌}
use qf.TypeHelpers.{negative, equal, positive, minus, strictly_order_type, compare_type}

abbrev bit : Bool → ℕ
bit b = if b then 1 else 0

signs :
    (p q : Bool)
    → (p ≡ true → q ≡ false)
    → ((minus (bit q) (bit p) ≡ negative) ↔ (p ≡ true))
      × ((minus (bit q) (bit p) ≡ positive) ↔ (q ≡ true))
      × ((minus (bit q) (bit p) ≡ equal) ↔ ((p ≡ false) × (q ≡ false)))
signs true true strict = cc (strict refl)
signs true false strict =
    ((λ e. refl, λ e. refl), (λ e. cc e, λ e. cc e), (λ e. cc e, λ (e, f). cc e))
signs false true strict =
    ((λ e. cc e, λ e. cc e), (λ e. refl, λ e. refl), (λ e. cc e, λ (e, f). cc f))
signs false false strict =
    ((λ e. cc e, λ e. cc e), (λ e. cc e, λ e. cc e), (λ e. (refl, refl), λ e. refl))

-- Where `<` never holds both ways, `compare_type` is negative exactly when the left value is less,
-- positive exactly when the right one is, and 0 exactly when neither is.
pub compare_type_lem :
    {A : Type 0} (lt : A → A → Bool) (a b : A)
    → (lt a b ≡ true → lt b a ≡ false)
    → ((compare_type lt a b ≡ negative) ↔ (lt a b ≡ true))
      × ((compare_type lt a b ≡ positive) ↔ (lt b a ≡ true))
      × ((compare_type lt a b ≡ equal) ↔ ((lt a b ≡ false) × (lt b a ≡ false)))
unfolding compare_type strictly_order_type
compare_type_lem lt a b strict = signs (lt a b) (lt b a) strict
