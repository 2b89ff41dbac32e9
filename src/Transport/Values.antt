-- ===== src/Transport/Values.antt =====
-- Values of the type `unknown` that arrive from a link, and the tests of their shape: the helpers
-- at the top of packages/actor-core-runtime/src/runtime-transport-contract.ts.
use Prim.Native.Char.{code}
use Prim.Native.String.{[], ◌∷◌}
use actor_web.Common.{
  ℕ, ◌*◌, suc, Bool, true, false, not, ◌&&◌, ◌||◌, String, leb, ◌==◌, if◌then◌else◌, same,
}
use actor_web.Transport.Reliability.{ℤ}

-- A number is an integer, lies between `floor` and `floor + 1`, or is infinite or no number.
pub data Number : Type 0 where
  integer : ℤ → Number
  between : ℤ → Number
  not_finite : Number

mutual
  pub data Value : Type 0 where
    undefined null : Value
    boolean : Bool → Value
    number : Number → Value
    text : String → Value
    array : Items → Value
    object : Fields → Value

  pub data Items : Type 0 where
    empty : Items
    item : Value → Items → Items

  pub data Fields : Type 0 where
    bare : Fields
    field : String → Value → Fields → Fields

unfoldable pub get_field : Fields → String → Value
get_field bare key = undefined
get_field (field k v fs) key = if same k key then v else get_field fs key

-- `value[key]`, where `value` was found to be an object.
unfoldable pub get : Value → String → Value
unfolding get_field
get (object fs) key = get_field fs key
get v key = undefined

unfoldable pub is_record : Value → Bool
is_record (object fs) = true
is_record v = false

-- The white space that `trim` removes.
unfoldable pub is_white_space : ℕ → Bool
is_white_space c =
    (leb 9 c && leb c 13)
    || c == 32
    || c == 160
    || c == 5760
    || (leb 8192 c && leb c 8202)
    || c == 8232
    || c == 8233
    || c == 8239
    || c == 8287
    || c == 12288
    || c == 65279

-- `s.trim().length === 0`
unfoldable pub is_blank : String → Bool
unfolding is_white_space
is_blank [] = true
is_blank (c ∷ s) = is_white_space (code c) && is_blank s

unfoldable pub is_text : Value → Bool
is_text (text s) = true
is_text v = false

-- `value === s`
unfoldable pub is_the_text : String → Value → Bool
is_the_text s (text t) = same t s
is_the_text s v = false

unfoldable pub is_undefined : Value → Bool
is_undefined undefined = true
is_undefined v = false

unfoldable pub is_non_empty_string : Value → Bool
unfolding is_blank
is_non_empty_string (text s) = not (is_blank s)
is_non_empty_string v = false

unfoldable pub every_non_empty_string : Items → Bool
unfolding is_non_empty_string
every_non_empty_string empty = true
every_non_empty_string (item v vs) = is_non_empty_string v && every_non_empty_string vs

unfoldable pub has_string_array : Value → Bool
unfolding every_non_empty_string
has_string_array (array vs) = every_non_empty_string vs
has_string_array v = false

unfoldable pub every_text : Fields → Bool
unfolding is_text
every_text bare = true
every_text (field k v fs) = is_text v && every_text fs

unfoldable pub has_string_record : Value → Bool
unfolding every_text
has_string_record (object fs) = every_text fs
has_string_record v = false

-- `Number.isInteger(value) && value >= 0`
unfoldable pub is_natural : Value → Bool
is_natural (number (integer (ℤ.pos n))) = true
is_natural v = false

abbrev pub default_runtime_transport_max_frame_bytes : ℕ
default_runtime_transport_max_frame_bytes = 1024 * 1024

unfoldable pub normalize_runtime_transport_max_frame_bytes : Value → ℕ
normalize_runtime_transport_max_frame_bytes (number (integer (ℤ.pos (suc n)))) = suc n
normalize_runtime_transport_max_frame_bytes (number (between (ℤ.pos n))) = n
normalize_runtime_transport_max_frame_bytes v = default_runtime_transport_max_frame_bytes
