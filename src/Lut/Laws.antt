-- ===== src/Lut/Laws.antt =====
-- What loading a table leaves, on each branch.
use pre.Lut.Colour.{to_u8, rgb2y, rgb2u, rgb2v}
use pre.Lut.{
  Lut, lut_type_count, Io, empty_lut, convert_from, init_single_lut, done, init_lut, get_lut,
}
use pre.Prelude.{
  ltb, leb, ◌==◌, if◌then◌else◌, Bool-cases, length, set, length-set, get_or, get_or-set_self,
  get_or-set_ne, ℕ, zero, suc, ◌+◌, ◌*◌, ◌/◌, ◌<◌, ◌≡◌, refl, ap, ◌∙◌, ◌⊎◌, inl, inr, true, false,
  Option, none, some, List, arith,
}
use pre.Prelude.Int.{ℤ, pos, negsuc}

length-convert_from :
    (f : ℕ → ℕ → ℕ → ℤ) (rgb_data : List ℕ) (left i : ℕ)
    → length (convert_from f rgb_data left i) ≡ left
unfolding convert_from
length-convert_from f rgb_data zero i = refl
length-convert_from f rgb_data (suc left) i = ap suc (length-convert_from f rgb_data left (i + 1))

-- What the conversion stores for the colour `k`.
abbrev pub converted : (ℕ → ℕ → ℕ → ℤ) → List ℕ → ℕ → ℕ
converted f rgb_data k =
    to_u8 (
      f (get_or rgb_data (k * 3 + 2) 0) (get_or rgb_data (k * 3 + 1) 0) (get_or rgb_data (k * 3) 0))

get_or-convert_from :
    (f : ℕ → ℕ → ℕ → ℤ) (rgb_data : List ℕ) (left i k : ℕ)
    → k < left
    → get_or (convert_from f rgb_data left i) k 0 ≡ converted f rgb_data (i + k)
unfolding convert_from
get_or-convert_from f rgb_data zero i k h = elim h [ ]
get_or-convert_from f rgb_data (suc left) i zero h =
    ap (converted f rgb_data) {x = i} {y = i + 0} (omega arith)
get_or-convert_from f rgb_data (suc left) i (suc k) h =
    get_or-convert_from f rgb_data left (i + 1) k (omega arith)
    ∙ ap (converted f rgb_data) {x = i + 1 + k} {y = i + suc k} (omega arith)

-- A column of the table: one entry for each colour, converted by its macro.
pub record IsColumn (f : ℕ → ℕ → ℕ → ℤ) (rgb_data : List ℕ) (column : Option (List ℕ))
    : Type 0 where
  pub entries : List ℕ
  pub allocated : column ≡ some entries
  pub count : length entries ≡ length rgb_data / 3
  pub at : (k : ℕ) → k * 3 + 2 < length rgb_data → get_or entries k 0 ≡ converted f rgb_data k

IsColumn-convert_from :
    (f : ℕ → ℕ → ℕ → ℤ) (rgb_data : List ℕ)
    → IsColumn f rgb_data (some (convert_from f rgb_data (length rgb_data / 3) 0))
IsColumn-convert_from f rgb_data = record {
  entries = convert_from f rgb_data (length rgb_data / 3) 0;
  allocated = refl;
  count = length-convert_from f rgb_data (length rgb_data / 3) 0;
  at = λ k h.
      get_or-convert_from f rgb_data (length rgb_data / 3) 0 k (omega arith)
      ∙ ap (converted f rgb_data) {x = 0 + k} {y = k} (omega arith);
}

-- Each answer of the system by which `init_single_lut` succeeds.
pub record Succeeds (io : Io) (rgb_data : List ℕ) : Type 0 where
  pub opened : io.file ≡ some rgb_data
  pub read_all : io.fread_len ≡ length rgb_data
  pub rgb : io.malloc_rgb ≡ true
  pub all_y : io.malloc_y ≡ true
  pub all_u : io.malloc_u ≡ true
  pub all_v : io.malloc_v ≡ true

-- The table `l` holds the colours of `rgb_data`.
pub record IsLoaded (rgb_data : List ℕ) (l : Lut) : Type 0 where
  pub y_column : IsColumn rgb2y rgb_data l.y
  pub u_column : IsColumn rgb2u rgb_data l.u
  pub v_column : IsColumn rgb2v rgb_data l.v
  pub size_eq : l.size ≡ length rgb_data / 3

-- The tables after `Init_LUT`: table `t` is `l`, and every other is as it was.
abbrev pub Replaced : ℕ → Lut → List Lut → List Lut → Type 0
Replaced t l luts luts' =
    (length luts' ≡ length luts)
    × ((k : ℕ) → get_or luts' k empty_lut ≡ (if k == t then l else get_or luts k empty_lut))

Replaced-set-set :
    (luts : List Lut) (t : ℕ) (a l : Lut)
    → t < length luts
    → Replaced t l luts (set (set luts t a) t l)
Replaced-set-set luts t a l h = (
  length-set (set luts t a) t l ∙ length-set luts t a,
  λ k. elim (Bool-cases (k == t)) [
    | inl here ↦ ground (arith, get_or-set_self (set luts t a) t l empty_lut, length-set luts t a)
    | inr other ↦
        ground
          (arith, get_or-set_ne (set luts t a) t k l empty_lut, get_or-set_ne luts t k a empty_lut)
  ],
)

-- `Init_LUT` starts from a table that `Free_LUT` has emptied.
init_lut_lem :
    (io : Io) (t : ℕ) (luts : List Lut)
    → t < lut_type_count
    → length luts ≡ lut_type_count
    → let (ret, l) = init_single_lut io empty_lut in
      init_lut io (pos t) luts ≡ done (ret, set (set luts t empty_lut) t l)
unfolding init_lut
init_lut_lem io t luts h n = elim (Bool-cases (ltb t lut_type_count)) [
  | inl below ↦
      rw
        (
          below,
          (let past : leb lut_type_count t ≡ false = ground arith in past),
          get_or-set_self luts t empty_lut empty_lut (omega arith),
        )
        refl
  | inr above ↦ absurd (ground arith)
]

init_single_lut_of_success :
    (io : Io) (rgb_data : List ℕ)
    → Succeeds io rgb_data
    → (l : Lut) × (init_single_lut io empty_lut ≡ (pos 0, l)) × IsLoaded rgb_data l
unfolding init_single_lut
init_single_lut_of_success io rgb_data ok = (
  record {
    y = some (convert_from rgb2y rgb_data (length rgb_data / 3) 0);
    u = some (convert_from rgb2u rgb_data (length rgb_data / 3) 0);
    v = some (convert_from rgb2v rgb_data (length rgb_data / 3) 0);
    size = length rgb_data / 3;
  },
  ground (arith, ok),
  record {
    y_column = IsColumn-convert_from rgb2y rgb_data;
    u_column = IsColumn-convert_from rgb2u rgb_data;
    v_column = IsColumn-convert_from rgb2v rgb_data;
    size_eq = refl;
  },
)

init_single_lut_fails_empty :
    (io : Io)
    → let (ret, l) = init_single_lut io empty_lut in
      (ret ≡ pos 0) ⊎ ((ret ≡ negsuc 0) × (l ≡ empty_lut))
unfolding init_single_lut
init_single_lut_fails_empty io = ground arith

-- Where the file opens, is read whole and all memory is given, `Init_LUT` of one of the eight
-- tables returns 0 and fills that table alone: Y, U and V have one entry for each triple of the
-- file, converted by the three macros.
pub init_lut_loads :
    (io : Io) (rgb_data : List ℕ) (t : ℕ) (luts : List Lut)
    → Succeeds io rgb_data
    → t < lut_type_count
    → length luts ≡ lut_type_count
    → (l : Lut) × (luts' : List Lut) × (init_lut io (pos t) luts ≡ done (pos 0, luts'))
      × IsLoaded rgb_data l
      × Replaced t l luts luts'
init_lut_loads io rgb_data t luts ok h n =
    let (l, e, loaded) = init_single_lut_of_success io rgb_data ok in
    (
      l,
      set (set luts t empty_lut) t l,
      init_lut_lem io t luts h n ∙ ap (λ r. done (r.0, set (set luts t empty_lut) t r.1)) e,
      loaded,
      Replaced-set-set luts t empty_lut l (omega arith),
    )

-- Whatever the system answers, `Init_LUT` of one of the eight tables returns 0, or returns -1 and
-- leaves that table empty; it touches no other.
pub init_lut_fails_empty :
    (io : Io) (t : ℕ) (luts : List Lut)
    → t < lut_type_count
    → length luts ≡ lut_type_count
    → (ret : ℤ) × (l : Lut) × (luts' : List Lut) × (init_lut io (pos t) luts ≡ done (ret, luts'))
      × ((ret ≡ pos 0) ⊎ ((ret ≡ negsuc 0) × (l ≡ empty_lut)))
      × Replaced t l luts luts'
init_lut_fails_empty io t luts h n =
    let (ret, l) = init_single_lut io empty_lut in
    (
      ret,
      l,
      set (set luts t empty_lut) t l,
      init_lut_lem io t luts h n,
      init_single_lut_fails_empty io,
      Replaced-set-set luts t empty_lut l (omega arith),
    )

-- From a table number of at least 0 `Get_LUT` returns.
pub get_lut_done :
    (t : ℕ) (luts : List Lut) → (lut : Option Lut) × (get_lut (pos t) luts ≡ done lut)
unfolding get_lut
get_lut_done t luts = elim (Bool-cases (leb lut_type_count t)) [
  | inl e ↦ (none, ground (arith, e))
  | inr e ↦ (some (get_or luts t empty_lut), ground (arith, e))
]
