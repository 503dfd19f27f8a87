-- ===== src/Models/Outcome/Size.antt =====
-- The UTF-8 length of `json.dumps(document, ensure_ascii=False, separators=(",", ":"))`, by which
-- models.py bounds structured outputs. It does not depend on the order of keys.
use Prim.Native.Char.{code}
use Prim.Native.Nat.{◌/◌}
use ump.Prelude.{ℕ, zero, suc, ◌+◌, String, true, false, ◌&&◌, ◌||◌, ltb, leb, if◌then◌else◌}
use ump.Prelude.Int.{ℤ, pos, negsuc}
use ump.Models.Json.{Json, null, bool, num, text, arr, obj, Items, nil, cons, Fields, end, field}

-- the UTF-8 bytes of one code point
utf8_size : ℕ → ℕ
utf8_size c = if ltb c 128 then 1 else if ltb c 2048 then 2 else if ltb c 65536 then 3 else 4

-- the quote, the backslash and \b \t \n \f \r take two bytes; other control characters six
char_size : ℕ → ℕ
unfolding utf8_size
char_size c =
    if (leb 34 c && leb c 34)
      || (leb 92 c && leb c 92)
      || (leb 8 c && leb c 10)
      || (leb 12 c && leb c 13)
    then 2
    else if ltb c 32
    then 6
    else utf8_size c

string_size : String → ℕ
unfolding char_size
string_size String.[] = 2
string_size (String.◌∷◌ c rest) = char_size (code c) + string_size rest

-- decimal digits, on fuel; the number itself is enough fuel
digits : ℕ → ℕ → ℕ
digits zero n = 1
digits (suc fuel) n = elim (ltb n 10) [ true ↦ 1 | false ↦ 1 + digits fuel (n / 10) ]

int_size : ℤ → ℕ
unfolding digits
int_size (pos n) = digits n n
int_size (negsuc n) = 1 + digits (suc n) (suc n)

unfoldable mutual
  unfolding string_size int_size

  pub json_size : Json → ℕ
  json_size null = 4
  json_size (bool true) = 4
  json_size (bool false) = 5
  json_size (num n) = int_size n
  json_size (text s) = string_size s
  json_size (arr xs) = items_size xs
  json_size (obj fs) = fields_size fs

  -- with the brackets or a comma before each item
  pub items_size : Items → ℕ
  items_size nil = 2
  items_size (cons x nil) = json_size x + 2
  items_size (cons x (cons y rest)) = json_size x + (1 + items_size (cons y rest))

  pub fields_size : Fields → ℕ
  fields_size end = 2
  fields_size (field k v end) = string_size k + (1 + (json_size v + 2))
  fields_size (field k v (field j w rest)) =
      string_size k + (1 + (json_size v + (1 + fields_size (field j w rest))))
