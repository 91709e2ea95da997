-- ===== src/Event/Fields.antt =====
-- The field names of the entry types, evget/include/evget/event/entry.h.
use evget.Prelude.{ℕ, ◌-◌, String, List, [], ◌∷◌, ◌++◌, length}

abbrev pub base_n_fields : ℕ
base_n_fields = 15

abbrev pub mouse_move_n_fields : ℕ
mouse_move_n_fields = 16

abbrev pub mouse_scroll_n_fields : ℕ
mouse_scroll_n_fields = 17

abbrev pub mouse_click_n_fields : ℕ
mouse_click_n_fields = 19

abbrev pub key_n_fields : ℕ
key_n_fields = 19

abbrev pub device_type_index : ℕ
device_type_index = base_n_fields - 1

pad : ℕ → List String
pad ℕ.zero = []
pad (ℕ.suc n) = "" ∷ pad n

-- AddToArray: the source array, the further elements, and empty names up to the size `to`.
unfoldable pub add_to_array : ℕ → List String → List String → List String
unfolding pad
add_to_array to from elements = from ++ (elements ++ pad (to - length (from ++ elements)))

abbrev pub base_fields : List String
base_fields =
    "interval" ∷ "timestamp" ∷ "position_x" ∷ "position_y" ∷ "device_name" ∷ "focus_window_name"
    ∷ "focus_window_position_x" ∷ "focus_window_position_y" ∷ "focus_window_width"
    ∷ "focus_window_height" ∷ "screen" ∷ "device_id" ∷ "system_event" ∷ "event_source"
    ∷ "device_type" ∷ []

unfoldable pub mouse_move_fields : List String
unfolding add_to_array
mouse_move_fields = add_to_array mouse_move_n_fields base_fields ("touch_id" ∷ [])

unfoldable pub mouse_scroll_fields : List String
unfolding add_to_array
mouse_scroll_fields =
    add_to_array mouse_scroll_n_fields base_fields ("scroll_vertical" ∷ "scroll_horizontal" ∷ [])

unfoldable pub mouse_click_fields : List String
unfolding add_to_array
mouse_click_fields =
    add_to_array mouse_click_n_fields base_fields
      ("touch_id" ∷ "button_id" ∷ "button_name" ∷ "button_action" ∷ [])

unfoldable pub key_fields : List String
unfolding add_to_array
key_fields =
    add_to_array key_n_fields base_fields
      ("button_id" ∷ "button_name" ∷ "character" ∷ "button_action" ∷ [])
