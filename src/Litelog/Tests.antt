-- ===== src/Litelog/Tests.antt =====
-- Packets and ports at concrete inputs, and the theorems where their hypotheses hold.
use pre.Litelog.{BindReply, bound, in_use, next_port, bind_target, recv_limit}
use pre.Litelog.Client.{log, file_name_of}
use pre.Litelog.Port.{IsBound, bind_target_lem}
use pre.Litelog.Laws.{is_level, log_lem, recv_limit_lem}
use pre.Prelude.{
  ◌==◌, if◌then◌else◌, ℕ, ◌+◌, ◌*◌, ◌/◌, ◌%◌, ◌<◌, ◌≡◌, refl, ◌⊎◌, true, false, none, some, List,
  [], ◌∷◌, ◌++◌, arith,
}
use pre.Prelude.Int.{pos, negsuc}

-- Every port is taken but 2.
abbrev only_2 : ℕ → BindReply
only_2 p = if p == 2 then bound else in_use

goes_round : bind_target only_2 4 65535 ≡ some (pos 0, 2)
unfolding bind_target next_port
goes_round = refl

file_name_example : file_name_of (0x61 ∷ 0x2f ∷ 0x62 ∷ 0x2f ∷ 0x63 ∷ 0x64 ∷ []) ≡ 0x63 ∷ 0x64 ∷ []
unfolding file_name_of
file_name_example = refl

bind_target_lem_example : IsBound only_2 (bind_target only_2 65536 65535)
bind_target_lem_example =
    bind_target_lem only_2 65535 2 (omega arith) (omega arith) refl (λ p e. ground arith)

log_lem_example :
    ((is_level 3 ≡ false) × (log true (pos 4) (0x5b ∷ []) 3 (0x41 ∷ []) ≡ (negsuc 0, none)))
    ⊎ ((is_level 3 ≡ true)
        × (true ≡ false)
        × (log true (pos 4) (0x5b ∷ []) 3 (0x41 ∷ []) ≡ (negsuc 1, none)))
    ⊎ ((is_level 3 ≡ true)
        × (true ≡ true)
        × (log true (pos 4) (0x5b ∷ []) 3 (0x41 ∷ [])
            ≡ (pos 4, some (3 ∷ (0x5b ∷ []) ++ 0x41 ∷ []))))
log_lem_example = log_lem true (pos 4) (0x5b ∷ []) 3 (0x41 ∷ []) (omega arith)

abbrev pre_name : List ℕ
pre_name = 0x50 ∷ 0x72 ∷ 0x65 ∷ []

recv_limit_lem_example :
    (recv_limit (pos 2500) ≡ some (2500 / 1000, 2500 % 1000 * 1000))
    × (2500 / 1000 * 1000000 + 2500 % 1000 * 1000 ≡ 2500 * 1000)
    × (2500 % 1000 * 1000 < 1000000)
recv_limit_lem_example = recv_limit_lem 2500 (omega arith)
