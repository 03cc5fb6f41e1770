-- ===== src/Policy/Number/Printed.antt =====
-- A number that the form prints is the one that it stores again.
use boxui.Base.{ℕ, String, some, ◌≡◌, refl, arith}
use boxui.Text.{decimal}
use boxui.Text.Digits.RoundTrip.{is_digits-decimal, digits_value-decimal}
use boxui.Text.Digits.Trim.{trim-digits, is_digits-not_blank}
use boxui.Json.{number, natural, JsonObject}
use boxui.Policy.FormModel.{set_policy_path}
use boxui.Policy.Dialog.{TransformResult}
use boxui.Policy.Number.{PolicyNumberConstraint, integer, decimal_integer, constrained}
use boxui.Policy.Number.Bounds.{IsWithin}

decimal_integer-decimal :
    (n : ℕ) (constraint : PolicyNumberConstraint)
    → IsWithin constraint n
    → decimal_integer (decimal n) constraint ≡ some n
unfolding decimal_integer IsWithin
decimal_integer-decimal n constraint (h, safe, allowed) =
    rw (is_digits-decimal n, digits_value-decimal n, allowed) (ground arith)

-- Under a constraint of kind "integer", the text that JavaScript prints for a number which the
-- constraint admits sets the field's path to just that number.
pub constrained-decimal :
    (n : ℕ) (constraint : PolicyNumberConstraint) (o : JsonObject) (path : String)
    → constraint.kind ≡ integer
    → IsWithin constraint n
    → constrained constraint o path (decimal n)
      ≡ TransformResult.transformed (set_policy_path o path (some (number (natural n))))
unfolding constrained
constrained-decimal n constraint o path kind h =
    rw
      (
        trim-digits (decimal n) (is_digits-decimal n),
        is_digits-not_blank (decimal n) (is_digits-decimal n),
        kind,
        decimal_integer-decimal n constraint h,
      )
      refl
