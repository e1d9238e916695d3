-- ===== src/Keyboard/Tests.antt =====
-- The keyboard's properties at concrete keys.
use boke_os.Base.{ℕ, false, true, ◌<◌, ◌≡◌, refl, arith, some, List, [], ◌∷◌}
use boke_os.Base.Run.{Returns, fault}
use boke_os.Keyboard.ScanCodes.{scan_code}
use boke_os.Keyboard.Handler.{Keyboard, shifted}
use boke_os.Keyboard.Reading.{char_of, type_and_read}
use boke_os.Keyboard.Modifiers.{Press, handle_all, ctrl_held, handle_all-InBounds}
use boke_os.Keyboard.Delivery.{type_and_read-Delivered, type_and_read-overrun}

abbrev keyboard_at : ℕ → Keyboard
keyboard_at pos = record {
  buffer_pos = pos;
  buff = λ _. 0;
  shift_pressed = false;
  ctrl_pressed = false;
  process_started = true;
}

abbrev press : ℕ → Press
press key = record { shell = some true; key = key }

-- Control, D, control up, and H.
abbrev presses : List Press
presses = press 29 ∷ press 32 ∷ press 157 ∷ press 35 ∷ []

handle_all-InBounds_example :
    Returns
      (λ k'. (k'.buffer_pos < 4096) × (k'.ctrl_pressed ≡ ctrl_held presses false))
      (handle_all presses (keyboard_at 4095))
handle_all-InBounds_example =
    handle_all-InBounds presses (keyboard_at 4095)
      (
        omega arith,
        (λ e. cc),
        (omega arith, (λ e. cc), (omega arith, (λ e. cc), (omega arith, (λ e. cc), tt))),
      )
      (omega arith)

-- `HELP` and the end of the line.
type_and_read-Delivered_example :
    Returns
      (λ end. (end.0.got ≡ 72 ∷ 69 ∷ 76 ∷ 80 ∷ 10 ∷ []) × (end.0.pos ≡ 9) × (end.1.buffer_pos ≡ 9))
      (type_and_read true
        (35 ∷ 18 ∷ 38 ∷ 25 ∷ 28 ∷ [])
        (record { pos = 4; got = [] })
        (keyboard_at 4))
unfolding char_of shifted scan_code
type_and_read-Delivered_example =
    type_and_read-Delivered true (35 ∷ 18 ∷ 38 ∷ 25 ∷ 28 ∷ []) (record { pos = 4; got = [] })
      (keyboard_at 4) (refl, (refl, (refl, (refl, (refl, tt))))) refl refl (omega arith)

type_and_read-overrun_example :
    type_and_read true (35 ∷ 18 ∷ []) (record { pos = 4095; got = [] }) (keyboard_at 4095) ≡ fault
type_and_read-overrun_example =
    type_and_read-overrun true 35 18 [] (record { pos = 4095; got = [] }) (keyboard_at 4095) refl
      refl refl refl refl
