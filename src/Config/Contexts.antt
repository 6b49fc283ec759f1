-- ===== src/Config/Contexts.antt =====
-- How many contexts the set-ups and clean-ups of the wrappers leave live.
use pre.Cl.{
  Slot, context, kernel_black_hot, kernel_white_hot, kernel_color_map, kernel_isotherms, d_input,
  d_y_out, d_uv_out, d_lut_y, d_lut_u, d_lut_v, d_temps, d_uv_maps, number, Event, created,
  released, live, freed, cleanup_program, set_up,
}
use pre.Cl.Pseudo.{PseudoCl, pseudo_cl_buffers, pseudo_cl_built, pseudo_cl_init, pseudo_cl_cleanup}
use pre.Cl.Tm.{Tmcl, tmcl_built, tmcl_init}
use pre.Cl.Pseudo
use pre.Cl.Tm
use pre.Prelude.{
  ◌==◌, if◌then◌else◌, ℕ, ◌+◌, ◌-◌, ◌≡◌, refl, ap, ◌∙◌, Bool, true, false, not, some, List, [], ◌∷◌,
  ◌++◌, arith,
}

-- A successful set-up of the temperature wrapper has a context.
pub tmcl_init-live :
    (r : Tm.Replies) (cl : Tmcl)
    → (tmcl_init r cl).0 ≡ true
    → live context 0 (tmcl_init r cl).2 ≡ some 1
unfolding tmcl_init set_up tmcl_built
tmcl_init-live r cl h = ground arith

-- And so has one of the colour wrapper, whatever was live before.
pseudo_cl_init-live :
    (n : ℕ) (r : Pseudo.Replies) (cl : PseudoCl)
    → (pseudo_cl_init r cl).0 ≡ true
    → live context n (pseudo_cl_init r cl).2 ≡ some (n + 1)
unfolding pseudo_cl_init set_up pseudo_cl_built pseudo_cl_buffers
pseudo_cl_init-live n r cl h = ground arith

-- What the clean-up of an initialised struct releases.
abbrev releases : PseudoCl → List Event
releases cl =
    freed cl.has_input d_input
    ++ freed cl.has_y_out d_y_out
    ++ freed cl.has_uv_out d_uv_out
    ++ freed cl.has_lut_y d_lut_y
    ++ freed cl.has_lut_u d_lut_u
    ++ freed cl.has_lut_v d_lut_v
    ++ freed cl.has_temps d_temps
    ++ freed cl.has_uv_maps d_uv_maps
    ++ freed cl.has_black_hot kernel_black_hot
    ++ freed cl.has_white_hot kernel_white_hot
    ++ freed cl.has_color_map kernel_color_map
    ++ freed cl.has_isotherms kernel_isotherms
    ++ cleanup_program

if_not-true : {A : Type 0} (b : Bool) (x y : A) → b ≡ true → (if not b then x else y) ≡ y
if_not-true b x y h = ground arith

pseudo_cl_cleanup-releases :
    (cl : PseudoCl) → cl.initialized ≡ true → (pseudo_cl_cleanup cl).1 ≡ releases cl
unfolding pseudo_cl_cleanup
pseudo_cl_cleanup-releases cl h =
    ap (λ (r : PseudoCl × List Event). r.1) (if_not-true cl.initialized _ _ h)

live-append :
    (s : Slot) (n m : ℕ) (xs ys : List Event)
    → live s n xs ≡ some m
    → live s n (xs ++ ys) ≡ live s m ys
live-append s n m [] ys h = ground arith
live-append s n m (created t ∷ xs) ys h =
    live-append s (if number s == number t then n + 1 else n) m xs ys h
live-append s n m (released t ∷ xs) ys h =
    grind (arith, live-append s (if number s == number t then n - 1 else n) m xs ys)

-- Calls that keep the number of live contexts.
record Keeps (log : List Event) : Type 0 where
  pub keeps : (n : ℕ) → live context n log ≡ some n

freed-Keeps : (b : Bool) (t : Slot) → (number context == number t) ≡ false → Keeps (freed b t)
freed-Keeps true t h = record { keeps = λ n. ground (arith, h) }
freed-Keeps false t h = record { keeps = λ n. refl }

append-Keeps : (xs ys : List Event) → Keeps xs → Keeps ys → Keeps (xs ++ ys)
append-Keeps xs ys k k' = record {
  keeps = λ n. live-append context n n xs ys (k.keeps n) ∙ k'.keeps n;
}

-- A release more, of another resource.
then_freed :
    (log : List Event) (b : Bool) (t : Slot)
    → (number context == number t) ≡ false
    → Keeps log
    → Keeps (log ++ freed b t)
then_freed log b t h k = append-Keeps log (freed b t) k (freed-Keeps b t h)

releases-Keeps :
    (cl : PseudoCl) → (log : List Event) × (releases cl ≡ log ++ cleanup_program) × Keeps log
releases-Keeps cl = (
  _,
  refl,
  then_freed _ cl.has_isotherms kernel_isotherms refl (
      then_freed _ cl.has_color_map kernel_color_map refl (
        then_freed _ cl.has_white_hot kernel_white_hot refl (
          then_freed _ cl.has_black_hot kernel_black_hot refl (
            then_freed _ cl.has_uv_maps d_uv_maps refl (
              then_freed _ cl.has_temps d_temps refl (
                then_freed _ cl.has_lut_v d_lut_v refl (
                  then_freed _ cl.has_lut_u d_lut_u refl (
                    then_freed _ cl.has_lut_y d_lut_y refl (
                      then_freed _ cl.has_uv_out d_uv_out refl (
                        then_freed _ cl.has_y_out d_y_out refl
                          (freed-Keeps cl.has_input d_input refl))))))))))),
)

pseudo_cl_cleanup-live :
    (n : ℕ) (cl : PseudoCl)
    → cl.initialized ≡ true
    → live context (n + 1) (pseudo_cl_cleanup cl).1 ≡ some n
pseudo_cl_cleanup-live n cl h =
    let (log, e, k) = releases-Keeps cl in
    ap (λ l. live context (n + 1) l) (pseudo_cl_cleanup-releases cl h ∙ e)
    ∙ live-append context (n + 1) (n + 1) log cleanup_program (k.keeps (n + 1))
    ∙ ground arith

pseudo_cl_init-initialized :
    (r : Pseudo.Replies) (cl : PseudoCl)
    → (pseudo_cl_init r cl).0 ≡ true
    → (pseudo_cl_init r cl).1.initialized ≡ true
unfolding pseudo_cl_init set_up pseudo_cl_built pseudo_cl_buffers
pseudo_cl_init-initialized r cl h = ground arith

-- Two set-ups and a clean-up leave a context live.
pub pseudo_twice-live :
    (r r' : Pseudo.Replies) (cl : PseudoCl)
    → (pseudo_cl_init r cl).0 ≡ true
    → (pseudo_cl_init r' (pseudo_cl_init r cl).1).0 ≡ true
    → live context 0 (
        (pseudo_cl_init r cl).2
        ++ (pseudo_cl_init r' (pseudo_cl_init r cl).1).2
        ++ (pseudo_cl_cleanup (pseudo_cl_init r' (pseudo_cl_init r cl).1).1).1)
      ≡ some 1
pseudo_twice-live r r' cl ok ok' =
    let cl' = (pseudo_cl_init r cl).1 in
    let cl'' = (pseudo_cl_init r' cl').1 in
    let log = (pseudo_cl_init r cl).2 in
    let log' = (pseudo_cl_init r' cl').2 in
    live-append context 0 2 (log ++ log') (pseudo_cl_cleanup cl'').1 (
      live-append context 0 1 log log' (pseudo_cl_init-live 0 r cl ok)
      ∙ pseudo_cl_init-live 1 r' cl' ok')
    ∙ pseudo_cl_cleanup-live 1 cl'' (pseudo_cl_init-initialized r' cl' ok')
