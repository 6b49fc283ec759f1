-- ===== src/Motor/Tests.antt =====
-- Commands and replies as bytes, and the theorems at inputs that meet their hypotheses.
use pre.Motor.{
  Motor, calculate_checksum, move, move_ir, shutter_close, position, parse_move, receive,
}
use pre.Motor.Checksum.{AllBytes}
use pre.Motor.Protocol.{
  move_lem, reply, IsReply, located, parse_move_lem, corrupted_rejected, reply-IsReply,
}
use pre.Motor.Continuous.{
  forward, back, at_test, joinable, clearing_direction, Continuous, at_rest, launch, calls_start,
  enters, stores_direction, stores_flag, creates, calls_stop, clears_flag, Reach, begin, next,
}
use pre.Motor.Continuous.Safety.{is_idle, has_ended, continuous_lem}
use pre.Prelude.{length, set, get_or, ◌≡◌, refl, ◌≢◌, ◌⊎◌, true, false, ◌&&◌, [], ◌∷◌, arith}
use pre.Prelude.Int.{pos, negsuc}

abbrev parked : Motor
parked = record { step_ir_cur = pos 0; step_vis_focus_cur = pos 0; step_vis_zoom_cur = pos 0 }

move_back : move_ir (negsuc 99) ≡ 0x24 ∷ 0x02 ∷ 0x04 ∷ 0x00 ∷ 0x9c ∷ 0xff ∷ 0xff ∷ 0xff ∷ 0x41 ∷ []
unfolding move_ir
move_back = refl

closes : shutter_close ≡ 0x24 ∷ 0x06 ∷ 0x01 ∷ 0x00 ∷ 0x02 ∷ 0x21 ∷ []
unfolding shutter_close
closes = refl

receives_minus_one :
    receive (reply 0x03 (negsuc 0)) 10 parked
    ≡ (pos 0, record parked { step_vis_zoom_cur = negsuc 0 })
unfolding receive parse_move position calculate_checksum
receives_minus_one = refl

move_lem_example :
    (length (move 2 (negsuc 99)) ≡ 9)
    × AllBytes (move 2 (negsuc 99))
    × (get_or (move 2 (negsuc 99)) 1 0 ≡ 2)
    × (position (move 2 (negsuc 99)) ≡ negsuc 99)
    × (calculate_checksum (move 2 (negsuc 99)) 9 ≡ 0)
move_lem_example = move_lem 2 (negsuc 99) (omega arith) (omega arith)

parse_move_lem_example :
    (IsReply (reply 2 (pos 7)) 10
      × (parse_move (reply 2 (pos 7)) 10 parked ≡ (pos 0, located (reply 2 (pos 7)) parked)))
    ⊎ ((¬ IsReply (reply 2 (pos 7)) 10)
        × (((parse_move (reply 2 (pos 7)) 10 parked).0 ≢ pos 0)
            × ((parse_move (reply 2 (pos 7)) 10 parked).1 ≡ parked)))
parse_move_lem_example = parse_move_lem (reply 2 (pos 7)) 10 parked

corrupted_rejected_example :
    ((parse_move (set (reply 2 (pos 7)) 4 8) 10 parked).0 ≢ pos 0)
    × ((parse_move (set (reply 2 (pos 7)) 4 8) 10 parked).1 ≡ parked)
corrupted_rejected_example =
    corrupted_rejected (reply 2 (pos 7)) 4 8 parked (reply-IsReply 2 (pos 7)) (omega arith)
      (omega arith) (omega arith)

-- A start that makes its thread, and a stop that has cleared the flag.
abbrev started : Continuous
started = record at_rest { running = true; direction = pos 1; thread = at_test }

abbrev begun : Reach at_rest started
unfolding launch
begun =
    next
      (next
        (next (next (next begin (calls_start forward refl)) (enters forward refl))
          (stores_direction forward refl))
        (stores_flag refl))
      (creates refl)

abbrev stopping : Continuous
stopping = record started { running = false; caller = clearing_direction back }

abbrev stop_clears : Reach at_rest stopping
stop_clears = next (next begun (calls_stop refl)) (clears_flag back refl)

continuous_lem_example :
    (false ≡ false)
    × (is_idle stopping.caller && stopping.running ≡ is_idle stopping.caller && joinable at_test)
    × (stopping.running && has_ended at_test ≡ false)
continuous_lem_example = continuous_lem stopping stop_clears
