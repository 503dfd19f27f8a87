-- ===== src/Models/Text/Checks.antt =====
-- What the text checks accept.
use Prim.Native.String.{len}
use ump.Prelude.{ℕ, String, ◌≤◌, ◌≡◌, ◌↔◌, false, ok, arith}
use ump.Models.Text.{required_text, blank}

pub required_text_iff :
    (value field_name : String) (maximum : ℕ)
    → (required_text value field_name maximum ≡ ok tt)
      ↔ ((blank value ≡ false) × (len value ≤ maximum))
unfolding required_text
required_text_iff value field_name maximum = (λ h. ground arith, λ h. ground arith)
