-- ===== src/Remote/Message.antt =====
-- `class JWrap` of src/utils/jwrap/jwrap.cpp and jwrap.h: what a message asks for. cJSON is not
-- part of the program: a `Json` gives what the source calls of it.
use pre.Remote.Controller.{Value, text, focus, same_text}
use pre.Prelude.{
  ◌==◌, if◌then◌else◌, ◌>>=◌, length, ℕ, not, ◌||◌, Option, none, some, List, [], ◌∷◌,
}
use pre.Prelude.Int.{ℤ, pos, negsuc}

-- `cJSON_Parse`, `cJSON_GetObjectItem` and the fields of an item, where `valuestring` is NULL for
-- an item that is no string.
pub record Json : Type 1 where
  pub Item : Type 0
  pub parse_text : List ℕ → Option Item
  pub get_item : Item → List ℕ → Option Item
  pub valueint : Item → ℤ
  pub valuestring : Item → Option (List ℕ)

-- `JWrap`
pub record JWrap : Type 0 where
  pub code_enum : ℤ
  pub code_name : List ℕ
  pub method : List ℕ
  pub value : Value

-- `JWrap::CODE_ENUM`
abbrev pub code_pseudo : ℕ
code_pseudo = 510

abbrev pub code_gas_enhancement : ℕ
code_gas_enhancement = 514

abbrev pub code_autofocus_ir : ℕ
code_autofocus_ir = 523

-- `m_code_map`
unfoldable pub code_map : ℤ → Option (List ℕ)
code_map (negsuc k) = none
code_map (pos n) =
    if n == code_pseudo
    then some (0x70 ∷ 0x73 ∷ 0x65 ∷ 0x75 ∷ 0x64 ∷ 0x6f ∷ [])
    else if n == code_gas_enhancement
    then some (
        0x67 ∷ 0x61 ∷ 0x73 ∷ 0x5f ∷ 0x65 ∷ 0x6e ∷ 0x68 ∷ 0x61 ∷ 0x6e ∷ 0x63 ∷ 0x65 ∷ 0x6d ∷ 0x65
        ∷ 0x6e ∷ 0x74 ∷ [])
    else if n == code_autofocus_ir
    then some
        (0x61 ∷ 0x75 ∷ 0x74 ∷ 0x6f ∷ 0x66 ∷ 0x6f ∷ 0x63 ∷ 0x75 ∷ 0x73 ∷ 0x5f ∷ 0x69 ∷ 0x72 ∷ [])
    else none

-- The object as the constructor finds it: `m_code_enum` has no initialiser, so it holds any number.
abbrev pub new_jwrap : ℤ → JWrap
new_jwrap garbage = record { code_enum = garbage; code_name = []; method = []; value = text [] }

-- `Validate`
unfoldable pub validate : JWrap → ℤ
unfolding code_map same_text
validate j = elim (code_map j.code_enum) [
  | none ↦ negsuc 0
  | some name ↦
      if not (same_text name j.code_name)
      then negsuc 0
      else if length j.method == 0
      then negsuc 0
      else pos 0
]

module _ (json : Json) where
  -- A field set to the text of an item, where the object has it. A `std::string` from NULL is
  -- undefined: `none`.
  unfoldable pub text_of : Option (json.Item) → List ℕ → Option (List ℕ)
  text_of none old = some old
  text_of (some item) old = json.valuestring item

  unfoldable pub number_of : Option (json.Item) → ℤ → ℤ
  number_of none old = old
  number_of (some item) old = json.valueint item

  unfoldable pub parse_focus : json.Item → Option Value
  unfolding text_of
  parse_focus data_item = do
    type_name ← text_of (json.get_item data_item (0x74 ∷ 0x79 ∷ 0x70 ∷ 0x65 ∷ [])) []
    enable ← text_of (json.get_item data_item (0x65 ∷ 0x6e ∷ 0x61 ∷ 0x62 ∷ 0x6c ∷ 0x65 ∷ [])) []
    some (focus (record { type_name = type_name; enable = enable }))

  -- The switch of `Parse` on the code.
  unfoldable pub parse_data : ℤ → json.Item → Value → Option Value
  unfolding parse_focus
  parse_data (negsuc k) data_item old = some old
  parse_data (pos code) data_item old =
      if code == code_pseudo || code == code_gas_enhancement
      then elim (json.get_item data_item (0x76 ∷ 0x61 ∷ 0x6c ∷ 0x75 ∷ 0x65 ∷ [])) [
        | none ↦ some old
        | some item ↦ (do s ← json.valuestring item; some (text s))
      ]
      else if code == code_autofocus_ir
      then parse_focus data_item
      else some old

  -- The part of `Parse` after the code object was found.
  unfoldable pub parse_code : json.Item → json.Item → JWrap → Option (ℤ × JWrap)
  unfolding text_of number_of parse_data validate
  parse_code root code j = do
    let code_enum = number_of (json.get_item code (0x65 ∷ 0x6e ∷ 0x75 ∷ 0x6d ∷ [])) j.code_enum
    code_name ← text_of (json.get_item code (0x6e ∷ 0x61 ∷ 0x6d ∷ 0x65 ∷ [])) j.code_name
    method ← text_of (json.get_item root (0x6d ∷ 0x65 ∷ 0x74 ∷ 0x68 ∷ 0x6f ∷ 0x64 ∷ [])) j.method
    value ← elim (json.get_item root (0x64 ∷ 0x61 ∷ 0x74 ∷ 0x61 ∷ [])) [
      | none ↦ some j.value
      | some data_item ↦ parse_data code_enum data_item j.value
    ]
    let j' : JWrap = record {
      code_enum = code_enum;
      code_name = code_name;
      method = method;
      value = value;
    }
    some (validate j', j')

  -- `Parse`: the status and the object; `none` where the program's behaviour is undefined.
  unfoldable pub parse : List ℕ → JWrap → Option (ℤ × JWrap)
  unfolding parse_code
  parse p_json j = elim (json.parse_text p_json) [
    | none ↦ some (negsuc 0, j)
    | some root ↦ elim (json.get_item root (0x63 ∷ 0x6f ∷ 0x64 ∷ 0x65 ∷ [])) [
      | none ↦ some (negsuc 0, j)
      | some code ↦ parse_code root code j
    ]
  ]
