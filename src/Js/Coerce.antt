-- ===== src/Js/Coerce.antt =====
-- `String(value)`. An object's own `toString` and `valueOf` are not called.
use secure_keyboard.Prelude.{suc, ◌++◌, [], if◌then◌else◌}
use secure_keyboard.Js.{
  JsString, js, decimal, JsNumber, natural, negative, fraction, infinity, nan, Value, undefined,
  null, boolean, number, string, array, object, function, Values, nil, cons,
}

abbrev number_text : JsNumber → JsString
number_text (natural n) = decimal n
number_text (negative n) = js "-" ++ decimal (suc n)
number_text (fraction s n t) = t
number_text (infinity s) = if s then js "-Infinity" else js "Infinity"
number_text nan = js "NaN"

-- An element of an array's text: null and undefined are left empty.
unfoldable mutual
  pub text_of : Value → JsString
  text_of undefined = js "undefined"
  text_of null = js "null"
  text_of (boolean b) = if b then js "true" else js "false"
  text_of (number x) = number_text x
  text_of (string t) = t
  text_of (array vs) = join_text vs
  text_of (object fs) = js "[object Object]"
  text_of (function t) = t

  pub join_text : Values → JsString
  join_text nil = []
  join_text (cons undefined vs) = join_more vs
  join_text (cons null vs) = join_more vs
  join_text (cons v vs) = text_of v ++ join_more vs

  pub join_more : Values → JsString
  join_more nil = []
  join_more (cons undefined vs) = js "," ++ join_more vs
  join_more (cons null vs) = js "," ++ join_more vs
  join_more (cons v vs) = js "," ++ text_of v ++ join_more vs
