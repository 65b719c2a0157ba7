-- ===== src/Jsonv/Values.antt =====
-- internal/jsonv/jsonv.go: the values of the model, and the result of a parser.
use pages.Common.{Bool, [], ◌∷◌}
use pages.Jsonv.Entries.{Entries}
use pages.Jsonv.Utf8.{Bytes}

-- `D` is the type of numbers. An object's entries stand in the order of its keys.
mutual
  pub data Value (D : Type 0) : Type 0 where
    null : Value D
    boolean : Bool → Value D
    num : D → Value D
    str : Bytes → Value D
    arr : Items D → Value D
    obj : Fields D → Value D

  pub data Items (D : Type 0) : Type 0 where
    nil : Items D
    cons : Value D → Items D → Items D

  pub data Fields (D : Type 0) : Type 0 where
    end : Fields D
    field : Bytes → Value D → Fields D → Fields D

abbrev pub entries_of : {D : Type 0} → Fields D → Entries (Value D)
entries_of end = []
entries_of (field k v fs) = (k, v) ∷ entries_of fs

abbrev pub fields_of : {D : Type 0} → Entries (Value D) → Fields D
fields_of [] = end
fields_of ((k, v) ∷ es) = field k v (fields_of es)

-- `arr = append(arr, v)`
unfoldable pub append_item : {D : Type 0} → Value D → Items D → Items D
append_item v nil = cons v nil
append_item v (cons x xs) = cons x (append_item v xs)

-- What a `SyntaxError` says.
pub data Message : Type 0 where
  unexpected_end unexpected_token too_deep trailing_text : Message
  expected_name expected_colon expected_comma_or_brace expected_comma_or_bracket : Message
  unterminated_string bad_control bad_escape bad_unicode : Message
  no_number unterminated_fraction missing_exponent bad_number : Message
  out_of_fuel : Message

-- The text left over is that from the parser's position on: an error's offset is the length of the
-- rest.
pub data Result {ℓ} (A : Type ℓ) : Type ℓ where
  ok : A → Result A
  err : Message → Bytes → Result A

infixl 5 ◌>>=◌
abbrev pub ◌>>=◌ {ℓ κ} : {A : Type ℓ} {B : Type κ} → Result A → (A → Result B) → Result B
ok a >>= f = f a
err m rest >>= f = err m rest
