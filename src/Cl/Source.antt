-- ===== src/Cl/Source.antt =====
-- `read_kernel_source` of src/config/cl/cl.c, which reads a kernel's file into new memory.
use pre.Prelude.{
  ltb, if◌then◌else◌, length, set, take, drop, ◌++◌, ℕ, ◌+◌, ◌<◌, ◌≡◌, refl, ap, Option, none, some,
  List, [], ◌∷◌, arith,
}
use pre.Prelude.Int.{ℤ, pos, negsuc}

-- What the file and the allocator answer: the file's bytes if it opens, what `ftell` gives, what new
-- memory holds if there is any, and how many bytes `fread` reads of those asked for.
pub record SourceReplies : Type 0 where
  pub file : Option (List ℕ)
  pub size : ℤ
  pub memory : Option (List ℕ)
  pub read : ℕ

-- NULL, the memory that is returned, or a write outside of it.
pub data Source : Type 0 where
  null out_of_range : Source
  source : List ℕ → Source

-- `source[size] = '\0'` after `fread`
unfoldable pub terminate : ℕ → List ℕ → Source
terminate size memory =
    if ltb size (length memory) then source (set memory size 0) else out_of_range

unfoldable pub read_kernel_source : SourceReplies → Source
unfolding terminate
read_kernel_source r = elim r.file [
  | none ↦ null
  | some bytes ↦ elim r.memory [
    | none ↦ null
    | some memory ↦ elim r.size [
      | negsuc n ↦ out_of_range
      | pos size ↦ terminate size (take r.read bytes ++ drop r.read memory)
    ]
  ]
]

terminated_copy :
    (bytes memory : List ℕ)
    → length memory ≡ length bytes + 1
    → set (take (length bytes) bytes ++ drop (length bytes) memory) (length bytes) 0
      ≡ bytes ++ 0 ∷ []
terminated_copy [] [] h = absurd (omega (arith, h))
terminated_copy [] (m ∷ []) h = refl
terminated_copy [] (m ∷ n ∷ memory) h = absurd (omega (arith, h))
terminated_copy (b ∷ bytes) [] h = absurd (omega (arith, h))
terminated_copy (b ∷ bytes) (m ∷ memory) h =
    ap (λ l. b ∷ l) (terminated_copy bytes memory (omega (arith, h)))

length-copy :
    (bytes memory : List ℕ)
    → length memory ≡ length bytes + 1
    → length bytes < length (take (length bytes) bytes ++ drop (length bytes) memory)
length-copy [] memory h = omega (arith, h)
length-copy (b ∷ bytes) [] h = absurd (omega (arith, h))
length-copy (b ∷ bytes) (m ∷ memory) h = omega (arith, length-copy bytes memory (omega (arith, h)))

-- Of a file that opens, whose length `ftell` gives and which `fread` reads whole, with one byte of memory
-- more, `read_kernel_source` writes nothing outside of the memory and returns the bytes with a 0 after
-- them.
pub read_kernel_source_lem :
    (bytes memory : List ℕ)
    → length memory ≡ length bytes + 1
    → read_kernel_source (record {
      file = some bytes;
      size = pos (length bytes);
      memory = some memory;
      read = length bytes;
    })
      ≡ source (bytes ++ 0 ∷ [])
unfolding read_kernel_source
read_kernel_source_lem bytes memory h =
    ground (arith, terminated_copy bytes memory h, length-copy bytes memory h)
