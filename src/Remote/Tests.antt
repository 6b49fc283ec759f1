-- ===== src/Remote/Tests.antt =====
-- The theorems on the remote control at concrete inputs.
use pre.Remote.Fpga.{add_from, calculate_checksum, nuc}
use pre.Remote.Controller.{text, same_text}
use pre.Remote.Listen.{handle}
use pre.Remote.Names.{pseudo_name}
use pre.Remote.Message.{
  Json, JWrap, code_map, new_jwrap, validate, text_of, number_of, parse_data, parse_code, parse,
}
use pre.Remote.Laws.{IsValid, handle-IsValid, handle-set_pseudo}
use pre.Config.Samples.{usr}
use pre.Config.User.{lava_forward}
use pre.Prelude.{
  ◌==◌, if◌then◌else◌, length, get_elem?, get_or, ℕ, ◌-◌, ◌≡◌, refl, Option, none, some, List, [],
  ◌∷◌, arith,
}
use pre.Prelude.Int.{ℤ, pos, negsuc}

usr-IsValid : IsValid usr
usr-IsValid = record {
  pseudo_fits = (0, refl, omega arith);
  gas_min = omega arith;
  gas_max = omega arith;
}

-- The items of one message: the root, its code with "enum" and "name", "method", and its data with
-- "value"; a key is told by its first byte.
abbrev item_at : ℕ → ℕ → Option ℕ
item_at item key =
    if item == 0
    then (if key == 0x63
        then some 1
        else if key == 0x6d
        then some 4
        else if key == 0x64
        then some 5
        else none)
    else if item == 1
    then (if key == 0x65 then some 2 else if key == 0x6e then some 3 else none)
    else if item == 5
    then (if key == 0x76 then some 6 else none)
    else none

abbrev text_at : ℕ → Option (List ℕ)
text_at item =
    if item == 3
    then some (0x70 ∷ 0x73 ∷ 0x65 ∷ 0x75 ∷ 0x64 ∷ 0x6f ∷ [])
    else if item == 4
    then some []
    else if item == 6
    then some (pseudo_name lava_forward)
    else none

abbrev json : Json
json = record {
  Item = ℕ;
  parse_text = λ t. if length t == 0 then none else some 0;
  get_item = λ item key. item_at item (get_or key 0 0);
  valueint = λ item. pos 510;
  valuestring = text_at;
}

-- The number of one digit.
abbrev atoi : List ℕ → ℤ
atoi s = pos (get_or s 0 0 - 0x30)

nuc_checksum : calculate_checksum nuc 3 14 ≡ get_elem? nuc 14
unfolding calculate_checksum add_from
nuc_checksum = refl

-- The message has an empty method, which `Validate` rejects.
abbrev asked : JWrap
asked = record {
  code_enum = pos 510;
  code_name = 0x70 ∷ 0x73 ∷ 0x65 ∷ 0x75 ∷ 0x64 ∷ 0x6f ∷ [];
  method = [];
  value = text (pseudo_name lava_forward);
}

parsed : parse json (0x7b ∷ []) (new_jwrap (pos 7)) ≡ some (negsuc 0, asked)
unfolding parse parse_code number_of text_of parse_data validate code_map same_text
parsed = refl

handle-set_pseudo_example :
    handle json atoi (pos 7) (pos 1) (0x7b ∷ []) usr
    ≡ some (
      record usr { pseudo = pos 2 },
      some (record {
        reply_code = pos 510;
        reply_name = 0x70 ∷ 0x73 ∷ 0x65 ∷ 0x75 ∷ 0x64 ∷ 0x6f ∷ [];
        reply_method = [];
        status = pos 0;
      }),
    )
handle-set_pseudo_example =
    handle-set_pseudo json atoi (pos 7) (negsuc 0) 1 (0x7b ∷ []) asked lava_forward usr parsed refl
      refl

handle-IsValid_example :
    IsValid (record usr { pseudo = pos 2 })
    × (record usr { pseudo = pos 2 } ≡ record usr { pseudo = pos 2; gas_enhancement = 1 })
handle-IsValid_example =
    handle-IsValid json atoi (pos 7) (pos 1) (0x7b ∷ []) usr (record usr { pseudo = pos 2 }) _
      usr-IsValid handle-set_pseudo_example
