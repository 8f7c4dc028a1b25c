-- ===== src/Boardtest/Buttons.antt =====
-- `buttonHandler` of src/stm32/boardtest.c: the names that it prints for a pin.
use Prim.Native.String.{String}
use testsystem.Prelude.{◌≡◌, refl, false, List, [], ◌∷◌, if◌then◌else◌, All}
use testsystem.Boardtest.Tables.{Pin, PinDesc, stm32_buttons}
use testsystem.Boardtest.Stm32.{same}

-- The loop, over what is left of the table.
unfoldable pub button_handler : List PinDesc → Pin → List String
button_handler [] pin_id = []
button_handler (d ∷ descs) pin_id =
    let rest = button_handler descs pin_id in if same pin_id d.pin_id then d.name ∷ rest else rest

-- Each button prints its own name and no other.
buttons_named :
    All (λ (d : PinDesc). button_handler stm32_buttons d.pin_id ≡ d.name ∷ []) stm32_buttons
unfolding button_handler
buttons_named = (refl, (refl, (refl, (refl, tt))))

-- A pin that is no button prints no name.
button_handler-none :
    (descs : List PinDesc) (pin_id : Pin)
    → All (λ (d : PinDesc). same pin_id d.pin_id ≡ false) descs
    → button_handler descs pin_id ≡ []
unfolding button_handler
button_handler-none [] pin_id h = refl
button_handler-none (d ∷ descs) pin_id h = simp (h.0, button_handler-none descs pin_id h.1) refl
